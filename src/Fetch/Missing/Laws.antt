-- ===== src/Fetch/Missing/Laws.antt =====
-- fetch/missing.go: what one run leaves in the tracker.
use repo_sync.Base.{ℕ, ◌+◌, ◌≡◌, refl, Bool, false, not, ◌||◌, Option, none, some}
use repo_sync.Base.{List, [], ◌∷◌, arith, ◌==◌, nat_eq, list_eq, contains, leb, if◌then◌else◌}
use repo_sync.Base.{length, select}
use repo_sync.Base.Bytes.{Bytes}
use repo_sync.Base.Clock.{Time}
use repo_sync.Base.Dict.{lookup, insert, lookup-insert}
use repo_sync.Fetch.Missing.{
  Missing, MissingMode, MissingRecord, Records, missing_ignore, tolerate, bump,
}

abbrev pub Miss : Type 0
Miss = Time × Bytes

-- The calls of `Tolerate` in one run, in the order in which the lock lets them through.
unfoldable pub miss_all : List Miss → Missing → Missing
miss_all [] m = m
miss_all ((now, path) ∷ rest) m = miss_all rest (tolerate now path m).1

abbrev pub missed : Bytes → List Miss → Bool
missed path [] = false
missed path ((_, p) ∷ rest) = path == p || missed path rest

abbrev pub runs_of : Option MissingRecord → ℕ
runs_of none = 0
runs_of (some r) = r.runs

abbrev pub known_of : Option MissingRecord → Bool
known_of none = false
known_of (some r) = r.known

module _ (path : Bytes) where
  seen-tolerate :
      (now : Time) (p : Bytes) (m : Missing)
      → contains (tolerate now p m).1.seen path ≡ (path == p || contains m.seen path)
  unfolding tolerate
  seen-tolerate now p m = ground arith

  record-tolerate :
      (now : Time) (p : Bytes) (m : Missing)
      → lookup path (tolerate now p m).1.records ≡ (
          if contains m.seen path || not (path == p)
          then lookup path m.records
          else some (bump m.retries now (lookup path m.records)))
  unfolding tolerate
  record-tolerate now p m =
      ground (arith, lookup-insert path p (bump m.retries now (lookup p m.records)) m.records)

  retries-tolerate :
      (now : Time) (p : Bytes) (m : Missing) → (tolerate now p m).1.retries ≡ m.retries
  unfolding tolerate
  retries-tolerate now p m = ground arith

  pub seen-miss_all :
      (l : List Miss) (m : Missing)
      → contains (miss_all l m).seen path ≡ (contains m.seen path || missed path l)
  unfolding miss_all
  seen-miss_all [] m = ground arith
  seen-miss_all ((now, p) ∷ l) m =
      ground (arith, seen-miss_all l (tolerate now p m).1, seen-tolerate now p m)

  runs-tolerate :
      (now : Time) (p : Bytes) (m : Missing)
      → runs_of (lookup path (tolerate now p m).1.records)
        ≡ runs_of (lookup path m.records)
          + (if contains m.seen path then 0 else if path == p then 1 else 0)
  unfolding bump
  runs-tolerate now p m = ground (arith, record-tolerate now p m)

  known-tolerate :
      (now : Time) (p : Bytes) (m : Missing)
      → known_of (lookup path (tolerate now p m).1.records) ≡ (
          if contains m.seen path || not (path == p)
          then known_of (lookup path m.records)
          else leb m.retries (runs_of (lookup path m.records) + 1)
            || known_of (lookup path m.records))
  unfolding bump
  known-tolerate now p m = ground (arith, record-tolerate now p m)

  -- A run counts a file once, however often and in whatever order it is missed.
  pub runs-miss_all :
      (l : List Miss) (m : Missing)
      → runs_of (lookup path (miss_all l m).records)
        ≡ runs_of (lookup path m.records)
          + (if contains m.seen path then 0 else if missed path l then 1 else 0)
  unfolding miss_all
  runs-miss_all [] m = ground arith
  runs-miss_all ((now, p) ∷ l) m =
      ground
        (arith, runs-miss_all l (tolerate now p m).1, seen-tolerate now p m, runs-tolerate now p m)

  pub known-miss_all :
      (l : List Miss) (m : Missing)
      → known_of (lookup path (miss_all l m).records) ≡ (
          if contains m.seen path || not (missed path l)
          then known_of (lookup path m.records)
          else leb m.retries (runs_of (lookup path m.records) + 1)
            || known_of (lookup path m.records))
  unfolding miss_all
  known-miss_all [] m = ground arith
  known-miss_all ((now, p) ∷ l) m = ground (
    arith,
    known-miss_all l (tolerate now p m).1,
    seen-tolerate now p m,
    known-tolerate now p m,
    runs-tolerate now p m,
    retries-tolerate now p m,
  )

-- Whether an absence no longer fails the run.
abbrev pub accepted : MissingMode → Records → Bytes → Bool
accepted mode recs path = mode == missing_ignore || known_of (lookup path recs)

abbrev pub pending : MissingMode → Records → List Bytes → List Bytes
pending mode recs = select (λ p. not (accepted mode recs p))

pending-insert :
    (mode : MissingMode) (recs : Records) (p : Bytes) (r : MissingRecord) (seen : List Bytes)
    → contains seen p ≡ false
    → pending mode (insert p r recs) seen ≡ pending mode recs seen
pending-insert mode recs p r [] h = refl
pending-insert mode recs p r (s ∷ seen) h =
    ground (arith, pending-insert mode recs p r seen, lookup-insert s p r recs)

-- The counter of unresolved files is right.
abbrev pub IsCounted : Missing → Type 0
IsCounted m = m.unresolved ≡ length (pending m.mode m.records m.seen)

tolerate-IsCounted :
    (now : Time) (p : Bytes) (m : Missing) → IsCounted m → IsCounted (tolerate now p m).1
unfolding tolerate
tolerate-IsCounted now p m h =
    let r = bump m.retries now (lookup p m.records) in
    ground (arith, pending-insert m.mode m.records p r m.seen, lookup-insert p p r m.records)

pub miss_all-IsCounted : (l : List Miss) (m : Missing) → IsCounted m → IsCounted (miss_all l m)
unfolding miss_all
miss_all-IsCounted [] m h = h
miss_all-IsCounted ((now, p) ∷ l) m h =
    miss_all-IsCounted l (tolerate now p m).1 (tolerate-IsCounted now p m h)

pub dry-miss_all : (l : List Miss) (m : Missing) → (miss_all l m).dry_run ≡ m.dry_run
unfolding miss_all tolerate
dry-miss_all [] m = refl
dry-miss_all ((now, p) ∷ l) m = ground (arith, dry-miss_all l (tolerate now p m).1)

pub mode-miss_all : (l : List Miss) (m : Missing) → (miss_all l m).mode ≡ m.mode
unfolding miss_all tolerate
mode-miss_all [] m = refl
mode-miss_all ((now, p) ∷ l) m = ground (arith, mode-miss_all l (tolerate now p m).1)
