-- ===== src/Machine/Leaks/Laws.antt =====
-- Which resources are deleted.
use nodepool.Prelude.{
  String, Bool, true, false, Option, some, none, List, [], elem, lookup, Result, ok, pure, get,
  ◌>>=◌, ◌>>◌, for_each, on_right, ◌⊎◌, inl, inr, ◌≡◌, refl,
}
use nodepool.Zk.Values.{is_str}
use nodepool.Zk.Node.{Node}
use nodepool.Driver.Handler.Rules.{Ends, bind_rule, if_rule, for_each_rule}
use nodepool.Machine.Leaks.{
  Resource, Leaked, Calls, known_nodes, known_uploads, is_known, was_seen, node_of, upload_of,
  delete_if, check_node, check_upload, check_resource, check_resources, cleanup_leaked_resources,
}

module _ {S : Type 0} (c : Calls S) (before : Leaked) where
  -- The resource of a node that was missing in the last round, and is missing among the nodes that
  -- ZooKeeper has in this one.
  pub record NodeIsGone (r : Resource) : Type 0 where
    pub id : String
    pub is_its_node : node_of r ≡ some id
    pub missed : was_seen id before.nodes ≡ true
    pub nodes : List Node
    pub at : S
    pub read : (c.node_iterator at).0 ≡ ok nodes
    pub unknown : is_known id (known_nodes c.provider_name nodes) ≡ false

  -- The same of an upload.
  pub record UploadIsGone (r : Resource) : Type 0 where
    pub id : String
    pub is_its_upload : upload_of r ≡ some id
    pub missed : was_seen id before.uploads ≡ true
    pub uploads : List (String × List (String × List String))
    pub at : S
    pub read : (c.get_provider_uploads at).0 ≡ ok uploads
    pub unknown : elem id (known_uploads uploads) ≡ false

  abbrev pub IsLeak : Resource → Type 0
  IsLeak r =
      (is_str (lookup "nodepool_provider_name" r.metadata) c.provider_name ≡ true)
      × (NodeIsGone r ⊎ UploadIsGone r)

  -- What every call keeps of the state, whatever it answers; a deletion need keep it only for a leak.
  pub record Keeps (J : S → Type 0) : Type 0 where
    pub iterates : (s : S) → J s → J (c.node_iterator s).1
    pub gets_uploads : (s : S) → J s → J (c.get_provider_uploads s).1
    pub lists : (s : S) → J s → J (c.list_resources s).1
    pub deletes : (r : Resource) (s : S) → IsLeak r → J s → J (c.delete_resource r s).1

  module _ (J : S → Type 0) (k : Keeps J) where
    abbrev Kept : {X A : Type 0} → Result A → X × S → Type 0
    Kept r t = J t.1

    delete_if-Kept :
        (b : Bool) (r : Resource) (t : Leaked × S)
        → (b ≡ true → IsLeak r)
        → J t.1
        → Ends Kept (delete_if c before b r t)
    delete_if-Kept true r t leak j = k.deletes r t.1 (leak refl) j
    delete_if-Kept false r t leak j = j

    module _ (nodes : List Node) (at : S) (read : (c.node_iterator at).0 ≡ ok nodes)
        (uploads : List (String × List (String × List String))) (at' : S)
        (read' : (c.get_provider_uploads at').0 ≡ ok uploads) (r : Resource)
        (ours : is_str (lookup "nodepool_provider_name" r.metadata) c.provider_name ≡ true) where
      check_node-Kept :
          (id : Option String) (t : Leaked × S)
          → node_of r ≡ id
          → J t.1
          → Ends Kept (check_node c before (known_nodes c.provider_name nodes) id r t)
      unfolding check_node
      check_node-Kept none t e j = j
      check_node-Kept (some id) t e j =
          if_rule Kept (is_known id (known_nodes c.provider_name nodes)) (pure tt) _ t (λ b. j)
            (λ b.
              delete_if-Kept (was_seen id before.nodes) r _
                (λ seen. (
                  ours,
                  inl (record {
                    id = id;
                    is_its_node = e;
                    missed = seen;
                    nodes = nodes;
                    at = at;
                    read = read;
                    unknown = b;
                  }),
                ))
                j)

      check_upload-Kept :
          (id : Option String) (t : Leaked × S)
          → upload_of r ≡ id
          → J t.1
          → Ends Kept (check_upload c before (known_uploads uploads) id r t)
      unfolding check_upload
      check_upload-Kept none t e j = j
      check_upload-Kept (some id) t e j =
          if_rule Kept (elem id (known_uploads uploads)) (pure tt) _ t (λ b. j)
            (λ b.
              delete_if-Kept (was_seen id before.uploads) r _
                (λ seen. (
                  ours,
                  inr (record {
                    id = id;
                    is_its_upload = e;
                    missed = seen;
                    uploads = uploads;
                    at = at';
                    read = read';
                    unknown = b;
                  }),
                ))
                j)

    module _ (nodes : List Node) (at : S) (read : (c.node_iterator at).0 ≡ ok nodes)
        (uploads : List (String × List (String × List String))) (at' : S)
        (read' : (c.get_provider_uploads at').0 ≡ ok uploads) where
      check_resource-Kept :
          (r : Resource) (t : Leaked × S)
          → J t.1
          → Ends Kept (
              check_resource c before
                (known_nodes c.provider_name nodes)
                (known_uploads uploads)
                r
                t)
      unfolding check_resource
      check_resource-Kept r t j =
          if_rule Kept (is_str (lookup "nodepool_provider_name" r.metadata) c.provider_name)
            (check_node c before (known_nodes c.provider_name nodes) (node_of r) r
              >> check_upload c before (known_uploads uploads) (upload_of r) r)
            (pure tt) t
            (λ ours.
              bind_rule Kept Kept
                (check_node c before (known_nodes c.provider_name nodes) (node_of r) r) _ t
                (check_node-Kept nodes at read uploads at' read' r ours (node_of r) t refl j)
                (λ e u h. h)
                (λ x u h.
                  check_upload-Kept nodes at read uploads at' read' r ours (upload_of r) u refl h))
            (λ other. j)

      check_resources-Kept :
          (resources : List Resource) (s : S)
          → J s
          → J
              (check_resources c before
                (known_nodes c.provider_name nodes)
                (known_uploads uploads)
                resources
                s).1
      unfolding check_resources
      check_resources-Kept resources s j =
          bind_rule Kept Kept
            (for_each resources
              (check_resource c before (known_nodes c.provider_name nodes) (known_uploads uploads)))
            (λ _. get >>= λ u. pure u.0) (record { nodes = []; uploads = [] }, s)
            (for_each_rule (λ t. J t.1) resources _ _ (λ r t h. check_resource-Kept r t h) j)
            (λ e u h. h) (λ x u h. h)

    -- If every call keeps a property of the state, where deleting a resource need keep it only for a
    -- resource of this provider whose node, or whose upload, was missing in the last round and is not
    -- known to ZooKeeper in this one, then cleaning up the leaked resources keeps it.
    pub cleanup_leaked_resources-keeps :
        (s : S) → J s → J (cleanup_leaked_resources c (before, s)).1.1
    unfolding cleanup_leaked_resources
    cleanup_leaked_resources-keeps s j =
        bind_rule (λ r t. J t.1 × ((c.node_iterator s).0 ≡ r)) Kept (on_right c.node_iterator) _
          (before, s) (k.iterates s j, refl) (λ e u h. h.0)
          (λ nodes u h.
            bind_rule (λ r t. J t.1 × ((c.get_provider_uploads u.1).0 ≡ r)) Kept
              (on_right c.get_provider_uploads) _ u (k.gets_uploads u.1 h.0, refl) (λ e w i. i.0)
              (λ uploads w i.
                bind_rule Kept Kept (on_right c.list_resources) _ w (k.lists w.1 i.0) (λ e x l. l)
                  (λ resources x l.
                    bind_rule Kept Kept
                      (on_right (
                        check_resources c before (known_nodes c.provider_name nodes)
                          (known_uploads uploads) resources))
                      _ x (check_resources-Kept nodes s h.1 uploads u.1 i.1 resources x.1 l)
                      (λ e y m. m) (λ leaked y m. m))))
