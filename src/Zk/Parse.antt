-- ===== src/Zk/Parse.antt =====
-- The paths under which the tree caches keep objects, and the keys that are read off them:
-- zk/zookeeper.py, _imagePath to _parseRequestPath.
pub mod Laws
use Prim.Native.Char.{code}
use Prim.Native.String.{◌++◌}
use nodepool.Prelude.{String, Option, some, none, List, [], ◌∷◌, eqb, if◌then◌else◌, ◌==◌}
use nodepool.Zk.Paths.{node_root, request_root}

abbrev pub Key : Type 0
Key = List String

abbrev pub image_root : String
image_root = "/nodepool/images"

unfoldable pub image_path : String → String
image_path image = image_root ++ ("/" ++ image)

unfoldable pub image_builds_path : String → String
unfolding image_path
image_builds_path image = image_path image ++ "/builds"

unfoldable pub image_pause_path : String → String
unfolding image_path
image_pause_path image = image_path image ++ "/pause"

unfoldable pub image_build_id_path : String → String → String
unfolding image_builds_path
image_build_id_path image build_id = image_builds_path image ++ ("/" ++ build_id)

unfoldable pub image_upload_path : String → String → String → String
unfolding image_builds_path
image_upload_path image build_id provider =
    image_builds_path image ++ ("/" ++ (build_id ++ ("/providers/" ++ (provider ++ "/images"))))

-- `path[len(root):]` if the path starts with the root.
strip : String → String → Option String
strip String.[] path = some path
strip (String.◌∷◌ c root) String.[] = none
strip (String.◌∷◌ c root) (String.◌∷◌ d path) =
    if eqb (code c) (code d) then strip root path else none

-- `path.split('/')`
abbrev prepend : String → List String → List String
prepend c [] = c ∷ []
prepend c (part ∷ parts) = (c ++ part) ∷ parts

split : String → List String
split String.[] = "" ∷ []
split (String.◌∷◌ c s) =
    if eqb (code c) b'/' then "" ∷ split s else prepend (String.◌∷◌ c "") (split s)

parsed : (List String → Option Key) → Option String → Option Key
unfolding split
parsed key none = none
parsed key (some rest) = key (split rest)

-- One name under the root.
abbrev short_key : List String → Option Key
short_key (_ ∷ name ∷ []) = if name == "lock" then none else some (name ∷ [])
short_key _ = none

-- _parseNodePath
unfoldable pub parse_node_path : String → Option Key
unfolding strip parsed
parse_node_path path = parsed short_key (strip node_root path)

-- _parseRequestPath
unfoldable pub parse_request_path : String → Option Key
unfolding strip parsed
parse_request_path path = parsed short_key (strip request_root path)

-- _parseImagePath
unfoldable pub parse_image_path : String → Option Key
unfolding strip parsed
parse_image_path path = parsed short_key (strip image_root path)

abbrev lock_key : List String → Option Key
lock_key (_ ∷ node ∷ lock ∷ contender ∷ []) =
    if lock == "lock" then some (node ∷ contender ∷ []) else none
lock_key _ = none

-- _parseNodeLockPath
unfoldable pub parse_node_lock_path : String → Option Key
unfolding strip parsed
parse_node_lock_path path = parsed lock_key (strip node_root path)

abbrev pause_key : List String → Option Key
pause_key (_ ∷ image ∷ pause ∷ []) = if pause == "pause" then some (image ∷ []) else none
pause_key _ = none

-- _parseImagePausePath
unfoldable pub parse_image_pause_path : String → Option Key
unfolding strip parsed
parse_image_pause_path path = parsed pause_key (strip image_root path)

abbrev build_key : List String → Option Key
build_key (_ ∷ image ∷ _ ∷ build ∷ []) = if build == "lock" then none else some (image ∷ build ∷ [])
build_key _ = none

-- _parseImageBuildPath
unfoldable pub parse_image_build_path : String → Option Key
unfolding strip parsed
parse_image_build_path path = parsed build_key (strip image_root path)

abbrev upload_key : List String → Option Key
upload_key (_ ∷ image ∷ _ ∷ build ∷ _ ∷ provider ∷ _ ∷ upload ∷ []) =
    if upload == "lock" then none else some (image ∷ build ∷ provider ∷ upload ∷ [])
upload_key _ = none

-- _parseImageUploadPath
unfoldable pub parse_image_upload_path : String → Option Key
unfolding strip parsed
parse_image_upload_path path = parsed upload_key (strip image_root path)
