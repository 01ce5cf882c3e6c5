-- ===== src/Config/Mounts.antt =====
-- config/config.go: `indexMounts` orders the mounts so that `MountFor` finds the longest one.
use repo_sync.Base.{ℕ, zero, suc, ◌+◌, ◌≤◌, ◌≡◌, refl, true, false, ◌||◌, inl, inr}
use repo_sync.Base.{none, some, List, [], ◌∷◌, arith, ◌==◌, nat_eq, list_eq, contains}
use repo_sync.Base.{length, get_elem?, All, ltb, Bool-cases, Option-cases}
use repo_sync.Base.Bytes.{Bytes}
use repo_sync.Config.{
  Config, MountConfig, UpstreamCheck, path_under, path_length, insert_by_length, order_from,
  index_mounts, first_under, mount_for,
}

module _ (ms : List MountConfig) where
  -- Every later path is at most as long.
  abbrev IsFalling : List ℕ → Type 0
  IsFalling [] = Unit
  IsFalling (i ∷ js) = All (λ j. path_length ms j ≤ path_length ms i) js × IsFalling js

  All-insert :
      (n i : ℕ) (js : List ℕ)
      → path_length ms i ≤ n
      → All (λ j. path_length ms j ≤ n) js
      → All (λ j. path_length ms j ≤ n) (insert_by_length ms i js)
  unfolding insert_by_length
  All-insert n i [] h all = (h, tt)
  All-insert n i (j ∷ js) h all = ground (arith, All-insert n i js h all.1)

  All-weaken :
      (n m : ℕ) (js : List ℕ)
      → n ≤ m
      → All (λ j. path_length ms j ≤ n) js
      → All (λ j. path_length ms j ≤ m) js
  All-weaken n m [] h all = tt
  All-weaken n m (j ∷ js) h all = (omega arith, All-weaken n m js h all.1)

  insert-IsFalling : (i : ℕ) (js : List ℕ) → IsFalling js → IsFalling (insert_by_length ms i js)
  unfolding insert_by_length
  insert-IsFalling i [] h = (tt, tt)
  insert-IsFalling i (j ∷ js) h = elim (Bool-cases (ltb (path_length ms i) (path_length ms j))) [
    | inl shorter ↦ rw shorter (All-insert _ i js (ground arith) h.0, insert-IsFalling i js h.1)
    | inr longer ↦ rw longer ((ground arith, All-weaken _ _ js (ground arith) h.0), h)
  ]

  order-IsFalling : (i : ℕ) (rest : List MountConfig) → IsFalling (order_from ms i rest)
  unfolding order_from
  order-IsFalling i [] = tt
  order-IsFalling i (m ∷ rest) = insert-IsFalling i _ (order-IsFalling (suc i) rest)

  contains-insert :
      (k i : ℕ) (js : List ℕ) → contains (insert_by_length ms i js) k ≡ (k == i || contains js k)
  unfolding insert_by_length
  contains-insert k i [] = refl
  contains-insert k i (j ∷ js) = ground (arith, contains-insert k i js)

  contains-order :
      (i k : ℕ) (rest : List MountConfig) {m : MountConfig}
      → get_elem? rest k ≡ some m
      → contains (order_from ms i rest) (i + k) ≡ true
  unfolding order_from
  contains-order i k [] h = absurd (cc)
  contains-order i zero (r ∷ rest) h =
      ground (arith, contains-insert (i + 0) i (order_from ms (suc i) rest))
  contains-order i (suc k) (r ∷ rest) h = ground (
    arith,
    contains-insert (i + suc k) i (order_from ms (suc i) rest),
    contains-order (suc i) k rest h,
  )

  All-contains :
      (n j : ℕ) (js : List ℕ)
      → All (λ k. path_length ms k ≤ n) js
      → contains js j ≡ true
      → path_length ms j ≤ n
  All-contains n j [] all h = absurd (cc)
  All-contains n j (k ∷ js) all h = ground (arith, All-contains n j js all.1)

  -- The first covering mount of a falling order is at least as long as any in the order.
  first_under_longest :
      (p : Bytes) (order : List ℕ) (m m' : MountConfig) (j : ℕ)
      → IsFalling order
      → first_under ms p order ≡ some m
      → contains order j ≡ true
      → get_elem? ms j ≡ some m'
      → path_under p m'.path ≡ true
      → (path_under p m.path ≡ true) × (length m'.path ≤ length m.path)
  unfolding first_under
  first_under_longest p [] m m' j f h c at u = absurd (cc)
  first_under_longest p (i ∷ order) m m' j f h c at u =
      ground
        (arith, first_under_longest p order m m' j f.1, All-contains (path_length ms i) j order f.0)

  first_under_listed :
      (p : Bytes) (order : List ℕ) (m : MountConfig)
      → first_under ms p order ≡ some m
      → (i : ℕ) × (get_elem? ms i ≡ some m)
  unfolding first_under
  first_under_listed p [] m h = absurd (cc)
  first_under_listed p (i ∷ order) m h = elim (Option-cases (get_elem? ms i)) [
    | inl gone ↦ first_under_listed p order m (ground (arith, h, gone))
    | inr (m', at) ↦ elim (Bool-cases (path_under p m'.path)) [
      | inl u ↦ (i, ground (arith, h, at, u))
      | inr u ↦ first_under_listed p order m (ground (arith, h, at, u))
    ]
  ]

  first_under-none :
      (p : Bytes) (order : List ℕ) (m : MountConfig) (j : ℕ)
      → first_under ms p order ≡ none
      → contains order j ≡ true
      → get_elem? ms j ≡ some m
      → path_under p m.path ≡ false
  unfolding first_under
  first_under-none p [] m j h c at = absurd (cc)
  first_under-none p (i ∷ order) m j h c at = ground (arith, first_under-none p order m j)

  order_of_index :
      (ok : UpstreamCheck) (order : List ℕ)
      → index_mounts ok ms ≡ inl order
      → order_from ms 0 ms ≡ order
  unfolding index_mounts
  order_of_index ok order h = ground arith

module _ (ok : UpstreamCheck) (c : Config)
    (indexed : index_mounts ok c.mounts ≡ inl c.mount_order) where
  listed :
      (j : ℕ) {m : MountConfig} → get_elem? c.mounts j ≡ some m → contains c.mount_order j ≡ true
  listed j {m} at = ground (
    arith,
    contains-order c.mounts 0 j c.mounts {m = m} at,
    order_of_index c.mounts ok c.mount_order indexed,
  )

  -- No mount is found only if none covers the path.
  mount_for-none :
      (p : Bytes) (m : MountConfig) (j : ℕ)
      → mount_for c p ≡ none
      → get_elem? c.mounts j ≡ some m
      → path_under p m.path ≡ false
  unfolding mount_for
  mount_for-none p m j h at = first_under-none c.mounts p c.mount_order m j h (listed j at) at

  -- If some configured mount covers the path, a mount is found. It is a configured one that covers the
  -- path, and no configured mount that covers the path is longer.
  pub mount_for_longest :
      (p : Bytes) (m' : MountConfig) (j : ℕ)
      → get_elem? c.mounts j ≡ some m'
      → path_under p m'.path ≡ true
      → (m : MountConfig) × (i : ℕ) × (mount_for c p ≡ some m)
        × (get_elem? c.mounts i ≡ some m)
        × (path_under p m.path ≡ true)
        × (length m'.path ≤ length m.path)
  unfolding mount_for
  mount_for_longest p m' j at u = elim (Option-cases (mount_for c p)) [
    | inl gone ↦ absurd (ground (arith, mount_for-none p m' j gone at, u))
    | inr (m, found) ↦
        let (i, here) = first_under_listed c.mounts p c.mount_order m found in
        let (covers, longer) =
          first_under_longest c.mounts p c.mount_order m m' j
            (rw (order_of_index c.mounts ok c.mount_order indexed) at
              (order-IsFalling c.mounts 0 c.mounts))
            found (listed j at) at u in
        (m, i, found, here, covers, longer)
  ]
