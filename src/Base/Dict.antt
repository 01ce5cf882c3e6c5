-- ===== src/Base/Dict.antt =====
-- Go maps as association lists. `m[k] = v` replaces in place or adds at the end; `for range` goes
-- through the list, and Go leaves that order open, so no theorem depends on it.
use repo_sync.Base.{◌≡◌, refl, Bool, Option, none, some, List, [], ◌∷◌, arith}
use repo_sync.Base.{Eq, ◌==◌, if◌then◌else◌}

abbrev pub Dict {ℓ κ} : Type ℓ → Type κ → Type (ℓ ⊔ κ)
Dict K V = List (K × V)

module _ {ℓ κ} {K : Type ℓ} {V : Type κ} ⦃e : Eq K⦄ where
  unfoldable pub lookup : K → Dict K V → Option V
  lookup k [] = none
  lookup k ((j, v) ∷ d) = if k == j then some v else lookup k d

  unfoldable pub insert : K → V → Dict K V → Dict K V
  insert k v [] = (k, v) ∷ []
  insert k v ((j, w) ∷ d) = if k == j then (k, v) ∷ d else (j, w) ∷ insert k v d

  -- `delete(m, k)`. Every entry of the key goes; a map has at most one.
  unfoldable pub erase : K → Dict K V → Dict K V
  erase k [] = []
  erase k ((j, w) ∷ d) = let rest = erase k d in if k == j then rest else (j, w) ∷ rest

  -- Keeps the entries that pass a test: a `for range` loop that deletes the others.
  unfoldable pub retain : (K → V → Bool) → Dict K V → Dict K V
  retain p [] = []
  retain p ((j, w) ∷ d) = let rest = retain p d in if p j w then (j, w) ∷ rest else rest

  -- Changes each value by its key: a `for range` loop over pointers.
  unfoldable pub update_all : (K → V → V) → Dict K V → Dict K V
  update_all f [] = []
  update_all f ((j, w) ∷ d) = (j, f j w) ∷ update_all f d

  abbrev pub NodupKeys : Dict K V → Type κ
  NodupKeys [] = Unit
  NodupKeys ((k, _) ∷ d) = (lookup k d ≡ none) × NodupKeys d

  pub lookup-nil : (k : K) → lookup k [] ≡ none
  unfolding lookup
  lookup-nil k = refl

  pub lookup-insert :
      (j k : K) (v : V) (d : Dict K V)
      → lookup j (insert k v d) ≡ (if j == k then some v else lookup j d)
  unfolding insert lookup
  lookup-insert j k v [] = refl
  lookup-insert j k v (_ ∷ d) = ground (arith, lookup-insert j k v d)

  pub lookup-erase :
      (j k : K) (d : Dict K V) → lookup j (erase k d) ≡ (if j == k then none else lookup j d)
  unfolding erase lookup
  lookup-erase j k [] = ground arith
  lookup-erase j k (_ ∷ d) = ground (arith, lookup-erase j k d)

  -- What a test keeps of an optional entry.
  abbrev pub kept : (K → V → Bool) → K → Option V → Option V
  kept p k none = none
  kept p k (some v) = if p k v then some v else none

  lookup-retain_of_none :
      (p : K → V → Bool) (j : K) (d : Dict K V) → lookup j d ≡ none → lookup j (retain p d) ≡ none
  unfolding retain lookup
  lookup-retain_of_none p j [] h = refl
  lookup-retain_of_none p j ((i, w) ∷ d) h = ground (arith, lookup-retain_of_none p j d)

  pub lookup-retain :
      (p : K → V → Bool) (j : K) (d : Dict K V)
      → NodupKeys d
      → lookup j (retain p d) ≡ kept p j (lookup j d)
  unfolding retain lookup
  lookup-retain p j [] u = refl
  lookup-retain p j ((i, w) ∷ d) (fresh, u) =
      ground (arith, lookup-retain p j d u, lookup-retain_of_none p i d fresh)

  pub retain-NodupKeys : (p : K → V → Bool) (d : Dict K V) → NodupKeys d → NodupKeys (retain p d)
  unfolding retain lookup
  retain-NodupKeys p [] u = tt
  retain-NodupKeys p ((i, w) ∷ d) (fresh, u) =
      ground (arith, retain-NodupKeys p d u, lookup-retain_of_none p i d fresh)

  abbrev pub updated : (K → V → V) → K → Option V → Option V
  updated f k none = none
  updated f k (some v) = some (f k v)

  pub lookup-update_all :
      (f : K → V → V) (j : K) (d : Dict K V) → lookup j (update_all f d) ≡ updated f j (lookup j d)
  unfolding update_all lookup
  lookup-update_all f j [] = refl
  lookup-update_all f j ((i, w) ∷ d) = ground (arith, lookup-update_all f j d)

  pub insert-NodupKeys : (k : K) (v : V) (d : Dict K V) → NodupKeys d → NodupKeys (insert k v d)
  unfolding insert
  insert-NodupKeys k v [] _ = (lookup-nil k, tt)
  insert-NodupKeys k v ((j, _) ∷ d) (fresh, u) =
      ground (arith, insert-NodupKeys k v d u, lookup-insert j k v d)

  pub erase-NodupKeys : (k : K) (d : Dict K V) → NodupKeys d → NodupKeys (erase k d)
  unfolding erase
  erase-NodupKeys k [] _ = tt
  erase-NodupKeys k ((j, _) ∷ d) (fresh, u) =
      ground (arith, erase-NodupKeys k d u, lookup-erase j k d)

pub ruleset dict_laws = (lookup-nil, lookup-insert, lookup-erase)
