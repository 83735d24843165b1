-- ===== src/Machine/Leaks.antt =====
-- Leaked resources of a cloud: cleanupLeakedResources of the class StateMachineProvider of
-- driver/statemachine.py. The resources are listed before the first is deleted.
pub mod Laws
use Prim.Native.String.{◌++◌}
use mathlib.Core.List.{◌++◌ as ◌++ᴸ◌}
use nodepool.Prelude.{
  String, Bool, true, false, not, ◌&&◌, Option, some, none, List, [], ◌∷◌, map, elem, lookup,
  insert, if◌then◌else◌, M, Result, ok, pure, get, modify, ◌>>=◌, ◌>>◌, for_each, on_right,
  suppress, ◌==◌,
}
use nodepool.Zk.Values.{is_set, is_str}
use nodepool.Zk.Paths.{format_id}
use nodepool.Zk.Node.{Node}

-- A resource of the cloud, with its metadata.
pub record Resource : Type 0 where
  pub name : String
  pub metadata : List (String × String)

-- possibly_leaked_nodes and possibly_leaked_uploads.
pub record Leaked : Type 0 where
  pub nodes : List (String × Resource)
  pub uploads : List (String × Resource)

-- What the method calls: ZooKeeper, where getProviderUploads has the ids of uploads by images and
-- builds, and the adapter.
pub record Calls (S : Type 0) : Type 0 where
  pub provider_name : String
  pub node_iterator : M S (List Node)
  pub get_provider_uploads : M S (List (String × List (String × List String)))
  pub list_resources : M S (List Resource)
  pub delete_resource : Resource → M S (Unit {0})

-- `f'{build_id}-{upload_id}'`
abbrev pub upload_key : (build_id : Option String) (upload_id : String) → String
upload_key build_id upload_id = format_id build_id ++ ("-" ++ upload_id)

-- known_nodes and known_uploads.
unfoldable pub known_nodes : (provider : String) → List Node → List (Option String)
known_nodes provider [] = []
known_nodes provider (n ∷ ns) =
    if is_str n.provider provider then n.id ∷ known_nodes provider ns else known_nodes provider ns

keys_of : List (String × List String) → List String
keys_of [] = []
keys_of ((build, uploads) ∷ builds) = map (upload_key (some build)) uploads ++ᴸ keys_of builds

unfoldable pub known_uploads : List (String × List (String × List String)) → List String
unfolding keys_of
known_uploads [] = []
known_uploads ((image, builds) ∷ images) = keys_of builds ++ᴸ known_uploads images

abbrev pub is_known : String → List (Option String) → Bool
is_known id [] = false
is_known id (x ∷ xs) = if is_str x id then true else is_known id xs

abbrev pub was_seen : String → List (String × Resource) → Bool
unfolding lookup
was_seen id m = elim (lookup id m) [ none ↦ false | some r ↦ true ]

-- The id of a resource's node, and the key of its upload, where they are not empty.
unfoldable pub node_of : Resource → Option String
unfolding lookup
node_of r =
    if is_set (lookup "nodepool_node_id" r.metadata)
    then lookup "nodepool_node_id" r.metadata
    else none

unfoldable pub upload_of : Resource → Option String
unfolding lookup
upload_of r =
    if is_set (lookup "nodepool_upload_id" r.metadata)
    then some (
        upload_key (lookup "nodepool_build_id" r.metadata)
          (format_id (lookup "nodepool_upload_id" r.metadata)))
    else none

module _ {S : Type 0} (c : Calls S) (before : Leaked) where
  abbrev delete_if : Bool → Resource → M (Leaked × S) (Unit {0})
  delete_if true r = suppress (on_right (c.delete_resource r))
  delete_if false r = pure tt

  -- A resource of a node that is not known is deleted if it was seen in the last round.
  check_node : List (Option String) → Option String → Resource → M (Leaked × S) (Unit {0})
  unfolding insert
  check_node known none r = pure tt
  check_node known (some id) r =
      if is_known id known
      then pure tt
      else modify (λ (l, s). (record l { nodes = insert id r l.nodes }, s))
        >> delete_if (was_seen id before.nodes) r

  check_upload : List String → Option String → Resource → M (Leaked × S) (Unit {0})
  unfolding insert
  check_upload known none r = pure tt
  check_upload known (some id) r =
      if elem id known
      then pure tt
      else modify (λ (l, s). (record l { uploads = insert id r l.uploads }, s))
        >> delete_if (was_seen id before.uploads) r

  -- The body of the loop over the resources.
  unfoldable pub check_resource :
      List (Option String) → List String → Resource → M (Leaked × S) (Unit {0})
  unfolding check_node check_upload node_of upload_of lookup
  check_resource nodes uploads r =
      if is_str (lookup "nodepool_provider_name" r.metadata) c.provider_name
      then check_node nodes (node_of r) r >> check_upload uploads (upload_of r) r
      else pure tt

  -- The loop, which starts with no leaks.
  unfoldable pub check_resources : List (Option String) → List String → List Resource → M S Leaked
  unfolding check_resource
  check_resources nodes uploads resources s =
      let (r, (l, t)) =
        (for_each resources (check_resource nodes uploads) >> (get >>= λ u. pure u.0))
          (record { nodes = []; uploads = [] }, s) in
      (r, t)

-- cleanupLeakedResources
unfoldable pub cleanup_leaked_resources : {S : Type 0} → Calls S → M (Leaked × S) (Unit {0})
unfolding known_nodes known_uploads check_resources
cleanup_leaked_resources c (before, s) =
    (do
      nodes ← on_right c.node_iterator
      uploads ← on_right c.get_provider_uploads
      resources ← on_right c.list_resources
      leaked ← on_right (
          check_resources c before (known_nodes c.provider_name nodes) (known_uploads uploads)
            resources)
      modify (λ (l, t). (leaked, t)))
      (before, s)
