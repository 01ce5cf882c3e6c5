-- ===== src/Tests/Transfers.antt =====
-- fetch/fetch.go and fetch/source.go at concrete inputs.
use repo_sync.Base.{
  ◌||◌, ◌≤◌, zero, suc, ◌≡◌, ◌⊎◌, refl, true, false, Option, none, some, List, [], ◌∷◌,
}
use repo_sync.Base.{nat_eq, list_eq, contains, if◌then◌else◌}
use repo_sync.Base.Bytes.{Bytes, lit, has_suffix, trim_prefix}
use repo_sync.Base.Clock.{Time, sub_time}
use repo_sync.Base.Dict.{lookup, insert, retain, erase}
use repo_sync.Fetch.Prune.{
  Pass, Grace, keep_has, is_bookkeeping, is_internal, visit, walk, prune_tree,
}
use repo_sync.Fetch.Prune.Laws.{fate, since, prune_tree-fate}
use repo_sync.Fetch.Prune.History.{Run, IsRun, after, Unreferenced, Since, removed_after_grace}
use repo_sync.Fetch.Source.{Source, Answer, transport_error, status, response, get}
use repo_sync.Fetch.Source.Laws.{Settled, Exhausted, get_lem}
use repo_sync.Fetch.Download.{
  Expect, Digest, LocalFile, Slot, body, Request, fetched, done, fetch_file, verify_local, best_sum,
}
use repo_sync.Fetch.Download.Laws.{Published, Matches, fetch_file-Published, fetch_file-whole}

abbrev old_rpm : Bytes
old_rpm = lit "pkg/old.rpm"

abbrev kept_rpm : Bytes
kept_rpm = lit "pkg/new.rpm"

abbrev tree : List Bytes
tree = old_rpm ∷ kept_rpm ∷ []

abbrev pass_at : Time → Pass
pass_at now = record {
  keep = some (kept_rpm ∷ []);
  grace = 10;
  dry_run = false;
  now = now;
  removable = λ _. true;
}

abbrev run_at : Time → Run
run_at now = record { pass = pass_at now; keep = kept_rpm ∷ []; files = tree }

abbrev no_state : Option Grace
no_state = none

first_run_marks : prune_tree (pass_at 100) tree [] no_state ≡ (some ((old_rpm, 100) ∷ []), [], 0)
unfolding prune_tree is_bookkeeping is_internal keep_has nat_eq list_eq visit walk lookup insert
    retain erase
first_run_marks = refl

later_run_removes : (prune_tree (pass_at 110) tree [] (some ((old_rpm, 100) ∷ []))).1 ≡ old_rpm ∷ []
unfolding prune_tree is_bookkeeping is_internal keep_has nat_eq list_eq visit walk lookup insert
    retain erase
later_run_removes = refl

old_distinct :
    (contains (kept_rpm ∷ []) old_rpm ≡ false)
    × ((contains (let d : List Bytes = [] in d) kept_rpm ≡ false) × Unit {0})
unfolding nat_eq list_eq
old_distinct = (refl, (refl, tt))

old_met : contains tree old_rpm ≡ true
unfolding nat_eq list_eq
old_met = refl

prune_tree-fate_example :
    let (file', removed, n) = prune_tree (pass_at 100) tree [] no_state in
    let (first, gone) = fate (pass_at 100) old_rpm (since old_rpm no_state) in
    (since old_rpm file' ≡ (if gone then none else first)) × (contains removed old_rpm ≡ gone)
prune_tree-fate_example =
    prune_tree-fate (pass_at 100) (kept_rpm ∷ []) tree no_state old_rpm refl refl refl old_distinct
      tt old_met

old-IsRun : (now : Time) → IsRun old_rpm (run_at now)
old-IsRun now = record {
  prunes = refl;
  real = refl;
  grace = refl;
  distinct = old_distinct;
  met = old_met;
}

old_plain : is_bookkeeping old_rpm ≡ false
unfolding is_bookkeeping nat_eq list_eq
old_plain = refl

old_not_internal : is_internal old_rpm ≡ false
unfolding is_internal nat_eq list_eq
old_not_internal = refl

old_unseen : since old_rpm no_state ≡ none
unfolding lookup
old_unseen = refl

old_removed :
    contains (prune_tree (pass_at 110) tree [] (after (run_at 100 ∷ []) no_state)).1 old_rpm ≡ true
unfolding prune_tree is_bookkeeping is_internal keep_has nat_eq list_eq visit walk lookup insert
    retain erase after
old_removed = refl

removed_after_grace_example :
    Unreferenced old_rpm (run_at 110)
    × ((t : Time) × Since old_rpm t (run_at 100 ∷ []) × (10 ≤ sub_time 110 t))
removed_after_grace_example =
    removed_after_grace old_rpm old_plain old_not_internal (run_at 110) (run_at 100 ∷ []) no_state
      (old-IsRun 110) (old-IsRun 100, tt) tt old_unseen old_removed

new_kept : (keep_has (pass_at 110).keep kept_rpm || is_bookkeeping kept_rpm) ≡ true
unfolding keep_has nat_eq list_eq
new_kept = refl

abbrev two_mirrors : Source
two_mirrors = record { bases = lit "http://a" ∷ lit "http://b" ∷ []; active = 0 }

-- The first mirror is down.
abbrev ask : Bytes → Answer
ask url = if has_suffix url (lit "http://b/x") then status 200 else transport_error

fails_over :
    get ask false (lit "/x") two_mirrors ≡ (response 1 200, record two_mirrors { active = 1 })
unfolding get nat_eq list_eq has_suffix trim_prefix
fails_over = refl

get_example :
    let r = (get ask false (lit "/x") two_mirrors).0 in
    Settled ask false (lit "/x") two_mirrors 0 2 r
    ⊎ Exhausted ask false (lit "/x") two_mirrors 0 2 r
get_example = get_lem ask false (lit "/x") two_mirrors (λ e. cc)

abbrev digest : Digest
digest algo content = content

abbrev want : Expect
want = record { size = some 4; sums = (lit "sha256", lit "abcd") ∷ [] }

abbrev half : Slot
half = record {
  dst = none;
  staged = none;
  partial = some (record { content = lit "ab"; modified = 1 });
}

-- A mirror that resumes.
abbrev resumes : Request
resumes t resume = elim resume [
  | zero ↦ body false (lit "abcd") true true 5
  | suc n ↦ body true (lit "cd") true true 5
]

abbrev abcd : LocalFile
abcd = record { content = lit "abcd"; modified = 5 }

resumed_fetch :
    fetch_file digest resumes resumes true (some want) false true false half
    ≡ (done fetched, record { dst = some abcd; staged = none; partial = none })
unfolding fetch_file verify_local nat_eq list_eq lookup
resumed_fetch = refl

fetch_file-Published_example :
    let (o, slot') = fetch_file digest resumes resumes true (some want) false true false half in
    Published digest want half slot' o
fetch_file-Published_example =
    fetch_file-Published digest want resumes resumes true false true false half

abcd-Matches : Matches digest want abcd
unfolding nat_eq list_eq best_sum lookup
abcd-Matches = record { size = refl; sum = refl }

nothing_in_place : verify_local digest true want half.dst ≡ false
unfolding verify_local
nothing_in_place = refl

abbrev starts_over : Request
starts_over t resume = body false (lit "abcd") true true 5

fetch_file-whole_example :
    let (o, slot') =
      fetch_file digest starts_over starts_over true (some want) false true false half in
    (o ≡ done fetched) × (slot'.dst ≡ some abcd)
fetch_file-whole_example =
    fetch_file-whole digest want starts_over starts_over true false true false half abcd
      abcd-Matches (λ t resume. refl) nothing_in_place

abbrev stale_stage : Slot
stale_stage = record half { staged = some (record { content = lit "old"; modified = 1 }) }
