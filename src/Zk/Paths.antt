-- ===== src/Zk/Paths.antt =====
-- The znode paths of zk/zookeeper.py, and `path.split("/")[-1]`.
use Prim.Native.Char.{code}
use Prim.Native.String.{◌++◌}
use nodepool.Prelude.{String, Option, some, none, eqb, if◌then◌else◌}

abbrev pub node_root : String
node_root = "/nodepool/nodes"

abbrev pub request_root : String
request_root = "/nodepool/requests"

abbrev pub request_lock_root : String
request_lock_root = "/nodepool/requests-lock"

-- `"%s" % id`
abbrev pub format_id : Option String → String
format_id none = "None"
format_id (some s) = s

unfoldable pub node_path : String → String
node_path node = node_root ++ ("/" ++ node)

unfoldable pub node_lock_path : String → String
node_lock_path node = node_root ++ ("/" ++ (node ++ "/lock"))

unfoldable pub request_path : String → String
request_path request = request_root ++ ("/" ++ request)

unfoldable pub request_lock_path : String → String
request_lock_path request = request_lock_root ++ ("/" ++ request)

-- The part behind the last slash, if there is one.
after_slash : String → Option String
after_slash String.[] = none
after_slash (String.◌∷◌ c s) = elim (after_slash s) [
  | some t ↦ some t
  | none ↦ if eqb (code c) b'/' then some s else none
]

unfoldable pub last_part : String → String
unfolding after_slash
last_part path = elim (after_slash path) [ none ↦ path | some t ↦ t ]
