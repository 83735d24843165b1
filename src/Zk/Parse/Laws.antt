-- ===== src/Zk/Parse/Laws.antt =====
-- Reading the key off a path gives back the names that the path was made of.
use Prim.Native.Char.{Char, code}
use Prim.Native.String.{◌++◌}
use text.Mathlib.TextLemmas.{nil-append, cons-append}
use nodepool.Prelude.{String, false, some, [], ◌∷◌, ◌≡◌, refl, ◌∙◌, ap, eqb, ◌==◌, arith}
use nodepool.Zk.Paths.{node_root, request_root, node_path, request_path}
use nodepool.Zk.Parse.{strip, split, parsed, parse_node_path, parse_request_path}

-- A name in a path.
abbrev pub HasNoSlash : String → Type 0
HasNoSlash String.[] = Unit
HasNoSlash (String.◌∷◌ c s) = (eqb (code c) b'/' ≡ false) × HasNoSlash s

strip-append : (root rest : String) → strip root (root ++ rest) ≡ some rest
unfolding strip
strip-append String.[] rest = rw (nil-append rest) refl
strip-append (String.◌∷◌ c root) rest =
    rw (cons-append c root rest) (ground (arith, strip-append root rest))

char-append : (c : Char) (s : String) → String.◌∷◌ c "" ++ s ≡ String.◌∷◌ c s
char-append c s = cons-append c "" s ∙ ap (String.◌∷◌ c) (nil-append s)

split_name : (s : String) → HasNoSlash s → split s ≡ s ∷ []
unfolding split
split_name String.[] h = refl
split_name (String.◌∷◌ c s) h = rw (h.0, split_name s h.1) (ap (λ t. t ∷ []) (char-append c s))

split-append : (s rest : String) → HasNoSlash s → split (s ++ ("/" ++ rest)) ≡ s ∷ split rest
unfolding split
split-append String.[] rest h =
    rw (nil-append ("/" ++ rest), cons-append "/" "" rest, nil-append rest) refl
split-append (String.◌∷◌ c s) rest h =
    rw (cons-append c s ("/" ++ rest), h.0, split-append s rest h.1)
      (ap (λ t. t ∷ split rest) (char-append c s))

split_root : (rest : String) → split ("/" ++ rest) ≡ "" ∷ split rest
unfolding split
split_root rest = rw (← nil-append ("/" ++ rest)) (split-append "" rest tt)

-- A name that is not the lock's.
abbrev pub IsName : String → Type 0
IsName s = HasNoSlash s × (s == "lock" ≡ false)

-- The keys of the znodes of nodes and requests, whose names hold no slash and are not "lock", are
-- these names.
pub parse_node_path-node_path :
    (n : String)
    → IsName n
    → (parse_node_path (node_path n) ≡ some (n ∷ []))
      × (parse_request_path (request_path n) ≡ some (n ∷ []))
unfolding parse_node_path parse_request_path node_path request_path
parse_node_path-node_path n h = (
  rw (strip-append node_root ("/" ++ n), parsed, split_root n, split_name n h.0, h.1) refl,
  rw (strip-append request_root ("/" ++ n), parsed, split_root n, split_name n h.0, h.1) refl,
)
