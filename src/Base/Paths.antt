-- ===== src/Base/Paths.antt =====
-- Package path and path/filepath on a system whose separator is the slash: `Clean`, `Join`, `Base`
-- and `Dir`.
pub mod Laws
use mathlib.Core.List.{reverse}
use repo_sync.Base.{ℕ, Bool, true, false, Option, none, some, List, [], ◌∷◌, ◌++◌}
use repo_sync.Base.{◌==◌, nat_eq, list_eq, if◌then◌else◌}
use repo_sync.Base.Bytes.{Bytes, lit, has_prefix, trim_right}

abbrev pub cons_head : ℕ → List Bytes → List Bytes
cons_head x [] = (x ∷ []) ∷ []
cons_head x (w ∷ ws) = (x ∷ w) ∷ ws

-- `strings.Split(s, "/")`.
unfoldable pub split : Bytes → List Bytes
split [] = [] ∷ []
split (x ∷ s) = let rest = split s in if x == b'/' then [] ∷ rest else cons_head x rest

-- The segments of a path, each behind a slash.
unfoldable pub slashed : List Bytes → Bytes
slashed [] = []
slashed (w ∷ ws) = b'/' ∷ (w ++ slashed ws)

abbrev pop : Bool → List Bytes → List Bytes
pop true [] = []
pop false [] = lit ".." ∷ []
pop true (w ∷ ws) = ws
pop false (w ∷ ws) = if w == lit ".." then lit ".." ∷ w ∷ ws else ws

-- One segment of `Clean`, on the stack of the segments kept, the last one first.
unfoldable pub clean_step : Bool → List Bytes → Bytes → List Bytes
clean_step rooted stack seg =
    if seg == []
    then stack
    else if seg == lit "."
    then stack
    else if seg == lit ".."
    then pop rooted stack
    else seg ∷ stack

unfoldable pub clean_onto : Bool → List Bytes → List Bytes → List Bytes
unfolding clean_step
clean_onto rooted stack [] = stack
clean_onto rooted stack (seg ∷ segs) = clean_onto rooted (clean_step rooted stack seg) segs

abbrev join_relative : List Bytes → Bytes
join_relative [] = lit "."
join_relative (w ∷ ws) = w ++ slashed ws

abbrev pub join_rooted : List Bytes → Bytes
join_rooted [] = lit "/"
join_rooted (w ∷ ws) = slashed (w ∷ ws)

-- The segments that `Clean` keeps, in order.
unfoldable pub clean_segments : Bool → Bytes → List Bytes
unfolding split clean_onto
clean_segments rooted s = reverse (clean_onto rooted [] (split s))

unfoldable pub clean : Bytes → Bytes
unfolding clean_segments has_prefix slashed
clean s =
    let rooted = has_prefix s (lit "/") in
    let segs = clean_segments rooted s in if rooted then join_rooted segs else join_relative segs

-- `filepath.Join` of two elements, the second not empty.
unfoldable pub join : Bytes → Bytes → Bytes
unfolding clean
join root name = if root == [] then clean name else clean (root ++ (b'/' ∷ name))

-- `path.Base` of a clean rooted path.
abbrev pub last_or_slash : List Bytes → Bytes
last_or_slash [] = lit "/"
last_or_slash (w ∷ []) = w
last_or_slash (w ∷ v ∷ ws) = last_or_slash (v ∷ ws)

abbrev pub without_last : List Bytes → List Bytes
without_last [] = []
without_last (w ∷ []) = []
without_last (w ∷ v ∷ ws) = w ∷ without_last (v ∷ ws)

-- `path.Base` and `path.Dir` of a rooted path that is clean.
unfoldable pub base : Bytes → Bytes
unfolding clean_segments
base s = last_or_slash (clean_segments true s)

unfoldable pub dir : Bytes → Bytes
unfolding clean_segments slashed
dir s = join_rooted (without_last (clean_segments true s))

-- `filepath.Base` of a relative path that is clean.
unfoldable pub last_segment : Bytes → Bytes
unfolding split
last_segment s = last_or_slash (split s)

-- `path.Base` of any path.
unfoldable pub path_base : Bytes → Bytes
unfolding trim_right last_segment
path_base [] = lit "."
path_base (x ∷ s) = let t = trim_right (x ∷ s) b'/' in if t == [] then lit "/" else last_segment t
