-- ===== src/Fetch/Source.antt =====
-- fetch/source.go, `Source`: a repository's mirrors, and a request that fails over between them.
-- The HTTP client is the parameter `ask`, which gives each URL's answer during one request. `Get`
-- copies the mirrors under the lock; no `Rebase` runs meanwhile in the model.
pub mod Laws
use repo_sync.Base.{
  ℕ, zero, suc, ◌+◌, ◌%◌, Bool, true, false, ◌&&◌, ◌||◌, Option, none, some, List, [], ◌∷◌, ◌++◌,
}
use repo_sync.Base.{map, ◌==◌, nat_eq, list_eq, ltb, leb, if◌then◌else◌, length, get_elem?}
use repo_sync.Base.Bytes.{Bytes, lit, trim_right, trim_left, trim_prefix, has_suffix, trim_suffix}

pub record Source : Type 0 where
  pub bases : List Bytes
  pub active : ℕ

unfoldable pub new_source : List Bytes → Source
new_source bases = record { bases = map (λ b. trim_right b b'/') bases; active = 0 }

unfoldable pub rebase : Bytes → Source → Source
rebase suffix s =
    let below = b'/' ∷ trim_right (trim_left suffix b'/') b'/' in
    record s { bases = map (λ b. if has_suffix b below then trim_suffix b below else b) s.bases }

-- What asking a URL comes to: no request can be built for it, the transport fails, or a status.
pub data Answer : Type 0 where
  bad_url transport_error : Answer
  status : ℕ → Answer

pub data GetError : Type 0 where
  no_mirrors not_found forbidden not_modified request_failed : GetError
  last_error : Answer → GetError

-- A response is the index of the mirror that gave it, with its status.
pub data GetResult : Type 0 where
  response : ℕ → ℕ → GetResult
  error : GetError → GetResult

-- What the loop's body makes of an answer: `none` tries the next mirror.
unfoldable pub judge : Bool → ℕ → Answer → Option GetResult
judge conditional i bad_url = some (error request_failed)
judge conditional i transport_error = none
judge conditional i (status n) =
    if n == 404 || n == 410
    then some (error not_found)
    else if n == 403
    then some (error forbidden)
    else if n == 304 && conditional
    then some (error not_modified)
    else if ltb n 200 || leb 300 n
    then none
    else some (response i n)

-- The URL of a path on a mirror.
unfoldable pub target : Bytes → Bytes → Bytes
target base path = base ++ (b'/' ∷ trim_prefix path (lit "/"))

abbrev pub base_at : List Bytes → ℕ → Bytes
base_at bases i = elim (get_elem? bases i) [ none ↦ [] | some b ↦ b ]

-- The loop of `Get`, with the rounds left and the last error.
get_from : (Bytes → Answer) → Bool → Bytes → Source → (rounds i : ℕ) → GetError → GetResult
get_from ask conditional path s zero i last = error last
get_from ask conditional path s (suc rounds) i last =
    let idx = (s.active + i) % length s.bases in
    let answer = ask (target (base_at s.bases idx) path) in
    let rest = get_from ask conditional path s rounds (suc i) (last_error answer) in
    elim (judge conditional idx answer) [ some r ↦ r | none ↦ rest ]

-- The mirror that answered becomes the active one.
abbrev pub moved : Source → GetResult → Source
moved s (response idx n) = if idx == s.active then s else record s { active = idx }
moved s (error e) = s

-- `Get`: the response or the error, and the source, whose active mirror is the one that answered.
unfoldable pub get : (Bytes → Answer) → Bool → Bytes → Source → GetResult × Source
unfolding get_from judge target
get ask conditional path s =
    if s.bases == []
    then (error no_mirrors, s)
    else let r = get_from ask conditional path s (length s.bases) 0 no_mirrors in (r, moved s r)

unfoldable pub active_base : Source → Bytes
active_base s = base_at s.bases s.active
