-- ===== src/Base/Counts.antt =====
-- Counting in lists, and lists as arrays.
use repo_sync.Base.{ap}
use repo_sync.Base.{
  ℕ, zero, suc, ◌+◌, ◌≡◌, ◌≢◌, ◌≤◌, refl, Bool, true, false, some, List, [], ◌∷◌, get_elem?, arith,
  ◌==◌, nat_eq, if◌then◌else◌,
}

abbrev pub bit : Bool → ℕ
bit true = 1
bit false = 0

module _ {ℓ} {A : Type ℓ} where
  unfoldable pub count : (A → Bool) → List A → ℕ
  count f [] = 0
  count f (x ∷ xs) = bit (f x) + count f xs

  unfoldable pub set_elem : ℕ → A → List A → List A
  set_elem i x [] = []
  set_elem zero x (y ∷ ys) = x ∷ ys
  set_elem (suc i) x (y ∷ ys) = y ∷ set_elem i x ys

  pub count-set_elem :
      (f : A → Bool) (i : ℕ) (x y : A) (xs : List A)
      → get_elem? xs i ≡ some y
      → count f (set_elem i x xs) + bit (f y) ≡ count f xs + bit (f x)
  unfolding count set_elem
  count-set_elem f i x y [] at = absurd (cc)
  count-set_elem f zero x y (z ∷ zs) at = ground arith
  count-set_elem f (suc i) x y (z ∷ zs) at = let h = count-set_elem f i x y zs at in omega arith

  pub get_elem-set_elem :
      (i j : ℕ) (x y : A) (xs : List A)
      → get_elem? xs i ≡ some y
      → get_elem? (set_elem i x xs) j ≡ (if i == j then some x else get_elem? xs j)
  unfolding set_elem
  get_elem-set_elem i j x y [] at = absurd (cc)
  get_elem-set_elem zero zero x y (z ∷ zs) at = ground arith
  get_elem-set_elem zero (suc j) x y (z ∷ zs) at = ground arith
  get_elem-set_elem (suc i) zero x y (z ∷ zs) at = ground arith
  get_elem-set_elem (suc i) (suc j) x y (z ∷ zs) at =
      ground (arith, get_elem-set_elem i j x y zs at)

  pub count_one :
      (f : A → Bool) (i : ℕ) (x : A) (xs : List A)
      → get_elem? xs i ≡ some x
      → f x ≡ true
      → 1 ≤ count f xs
  unfolding count
  count_one f i x [] at h = absurd (cc)
  count_one f zero x (y ∷ ys) at h = ground arith
  count_one f (suc i) x (y ∷ ys) at h = let k = count_one f i x ys at h in omega arith

  -- Two places.
  pub count_two :
      (f : A → Bool) (i j : ℕ) (x y : A) (xs : List A)
      → get_elem? xs i ≡ some x
      → get_elem? xs j ≡ some y
      → f x ≡ true
      → f y ≡ true
      → i ≢ j
      → 2 ≤ count f xs
  unfolding count
  count_two f i j x y [] at at' h k other = absurd (cc)
  count_two f zero zero x y (z ∷ zs) at at' h k other = absurd (other refl)
  count_two f zero (suc j) x y (z ∷ zs) at at' h k other =
      let c = count_one f j y zs at' k in ground arith
  count_two f (suc i) zero x y (z ∷ zs) at at' h k other =
      let c = count_one f i x zs at h in ground arith
  count_two f (suc i) (suc j) x y (z ∷ zs) at at' h k other =
      let c = count_two f i j x y zs at at' h k (λ e. other (ap suc e)) in omega arith
