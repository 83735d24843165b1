-- ===== src/Zk/Kazoo.antt =====
-- What zk/zookeeper.py calls of the kazoo client, of the clock and of the local caches. None of the
-- theorems over it supposes more of the client than a type; a theorem that does names it.
use nodepool.Prelude.{ℕ, String, Bool, Option, List, M}
use nodepool.Zk.Values.{Dict}
use nodepool.Zk.Node.{Node}
use nodepool.Zk.Request.{NodeRequest}

-- `S` is all that the calls read and change: the ensemble, the session and the clock. A znode with
-- no data reads as `none`.
pub record Kazoo (S : Type 0) : Type 0 where
  pub get : (path : String) → M S (Option Dict)
  pub set : (path : String) → Dict → M S (Unit {0})
  -- `create(..., sequence=True)` returns the path with its number.
  pub create : (path : String) (ephemeral : Bool) → Dict → M S String
  pub delete : (path : String) (recursive : Bool) → M S (Unit {0})
  pub get_children : (path : String) → M S (List String)
  -- `Lock(client, path).acquire(blocking, None, ephemeral)`, and `release`.
  pub acquire : (path : String) (blocking ephemeral : Bool) → M S Bool
  pub release : (path : String) → M S (Unit {0})
  -- `int(time.time())`
  pub time : S → ℕ
  -- The two tree caches, if they are enabled.
  pub cache_enabled : Bool
  pub cached_node : S → String → Option Node
  pub cached_node_ids : S → List String
  pub cached_request : S → String → Option NodeRequest
