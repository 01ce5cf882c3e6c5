-- ===== src/Mirror/DiscoverCache/Origins.antt =====
-- mirror/discover_cache.go: where the targets of a record come from after a scan.
use repo_sync.Base.{
  ℕ, suc, ◌≡◌, refl, ◌⊎◌, inl, inr, Bool, false, not, ◌||◌, some, List, [], ◌∷◌, ◌++◌,
}
use repo_sync.Base.{nat_eq, list_eq, contains, ltb, All, get_elem?, Bool-cases, Option-cases}
use repo_sync.Base.Bytes.{Bytes}
use repo_sync.Base.Clock.{sub_time}
use repo_sync.Mirror.DiscoverCache.{
  Tracked, Sweep, gone_at, live, keys, tracked_keys, sweep_records, new_records, insert_sorted,
  sort_records, update_records,
}

module _ {A : Type 0} (key : A → Bytes) (P : A → Type 0) where
  abbrev Targets : List (Tracked A) → Type 0
  Targets ts = All (λ (t : Tracked A). P t.target) ts

  All-live : (ts : List (Tracked A)) → Targets ts → All P (live ts)
  unfolding live
  All-live [] h = tt
  All-live (t ∷ ts) (h, rest) = elim (Option-cases t.gone) [
    | inl stays ↦ rw stays (h, All-live ts rest)
    | inr (g, left) ↦ rw left (All-live ts rest)
  ]

  All-insert_sorted :
      (lt : A → A → Bool) (t : Tracked A) (ts : List (Tracked A))
      → P t.target
      → Targets ts
      → Targets (insert_sorted lt t ts)
  unfolding insert_sorted
  All-insert_sorted lt t [] h hs = (h, tt)
  All-insert_sorted lt t (u ∷ ts) h hs = elim (Bool-cases (lt u.target t.target)) [
    | inl after ↦ rw after (hs.0, All-insert_sorted lt t ts h hs.1)
    | inr here ↦ rw here (h, hs)
  ]

  All-sort_records :
      (lt : A → A → Bool) (ts : List (Tracked A)) → Targets ts → Targets (sort_records lt ts)
  unfolding sort_records
  All-sort_records lt [] h = tt
  All-sort_records lt (t ∷ ts) (h, rest) =
      All-insert_sorted lt t (sort_records lt ts) h (All-sort_records lt ts rest)

  Targets-append : (xs ys : List (Tracked A)) → Targets xs → Targets ys → Targets (xs ++ ys)
  Targets-append [] ys hx hy = hy
  Targets-append (x ∷ xs) ys (h, hx) hy = (h, Targets-append xs ys hx hy)

  All-sweep_records :
      (s : Sweep) (seen : List Bytes) (old : List (Tracked A))
      → Targets old
      → Targets (sweep_records key s seen old).0
  unfolding sweep_records
  All-sweep_records s seen [] h = tt
  All-sweep_records s seen (t ∷ old) (h, rest) =
      let later = All-sweep_records s seen old rest in
      let since = gone_at s.now t.gone in
      elim (Bool-cases (contains seen (key t.target))) [
        | inl found ↦ rw found (h, later)
        | inr unseen ↦ elim (Bool-cases s.clean) [
          | inr partial ↦ simp (unseen, partial) (h, later)
          | inl clean ↦ elim (Bool-cases (not s.prune || ltb (sub_time s.now since) s.grace)) [
            | inl spared ↦ simp (unseen, clean, spared) (h, later)
            | inr due ↦ simp (unseen, clean, due) later
          ]
        ]
      ]

  All-new_records :
      (known : List Bytes) (found : List A)
      → ((i : ℕ) (a : A) → get_elem? found i ≡ some a → contains known (key a) ≡ false → P a)
      → Targets (new_records key known found)
  unfolding new_records
  All-new_records known [] h = tt
  All-new_records known (a ∷ found) h =
      let later = All-new_records known found (λ i a at new. h (suc i) a at new) in
      elim (Bool-cases (contains known (key a))) [
        | inl old ↦ rw old later
        | inr new ↦ rw new (h 0 a refl new, later)
      ]

  All-at :
      (ts : List (Tracked A))
      → ((i : ℕ) (t : Tracked A) → get_elem? ts i ≡ some t → P t.target)
      → Targets ts
  All-at [] h = tt
  All-at (t ∷ ts) h = (h 0 t refl, All-at ts (λ i u at. h (suc i) u at))

module _ {A : Type 0} (key : A → Bytes) (s : Sweep) (found : List A) (old : List (Tracked A)) where
  -- The keys of the records that a scan keeps.
  abbrev known_keys : List Bytes
  known_keys = tracked_keys key (sweep_records key s (keys key found) old).0

  -- A target of an earlier record, as it was recorded, or one found for which no record was kept.
  abbrev pub HasOrigin : A → Type 0
  HasOrigin a =
      ((i : ℕ) × (t : Tracked A) × (get_elem? old i ≡ some t) × (t.target ≡ a))
      ⊎ ((i : ℕ) × (get_elem? found i ≡ some a) × (contains known_keys (key a) ≡ false))

  pub update_records-HasOrigin :
      (lt : A → A → Bool) → All HasOrigin (live (update_records key lt s found old).0)
  unfolding update_records
  update_records-HasOrigin lt =
      let kept = (sweep_records key s (keys key found) old).0 in
      let new = new_records key (tracked_keys key kept) found in
      All-live key HasOrigin _ (
        All-sort_records key HasOrigin lt (kept ++ new) (
          Targets-append key HasOrigin kept new
            (All-sweep_records key HasOrigin s (keys key found) old
              (All-at key HasOrigin old (λ i t at. inl (i, t, at, refl))))
            (All-new_records key HasOrigin known_keys found (λ i a at fresh. inr (i, at, fresh)))))
