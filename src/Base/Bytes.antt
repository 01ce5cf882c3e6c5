-- ===== src/Base/Bytes.antt =====
-- Go strings as lists of bytes, and the functions of package `strings` that the program uses.
use Prim.Native.Char.{code}
use Prim.Native.String.{String}
use repo_sync.Base.{
  ℕ, ◌+◌, ◌&&◌, ◌||◌, ◌≡◌, refl, Bool, true, false, Option, none, some, List, [], ◌∷◌, ◌++◌,
}
use repo_sync.Base.{arith, ◌==◌, nat_eq, list_eq, leb, ltb, if◌then◌else◌}

abbrev pub Bytes : Type 0
Bytes = List ℕ

-- A literal of the source, which is ASCII.
abbrev pub lit : String → Bytes
lit String.[] = []
lit (String.◌∷◌ c s) = code c ∷ lit s

-- What follows a prefix, if the text has it.
unfoldable pub strip_prefix : Bytes → Bytes → Option Bytes
strip_prefix s [] = some s
strip_prefix [] (c ∷ p) = none
strip_prefix (x ∷ s) (c ∷ p) = if x == c then strip_prefix s p else none

abbrev pub is_some {ℓ} : {A : Type ℓ} → Option A → Bool
is_some none = false
is_some (some a) = true

unfoldable pub has_prefix : Bytes → Bytes → Bool
unfolding strip_prefix
has_prefix s p = is_some (strip_prefix s p)

abbrev or_self : Option Bytes → Bytes → Bytes
or_self none s = s
or_self (some r) s = r

unfoldable pub trim_prefix : Bytes → Bytes → Bytes
unfolding strip_prefix
trim_prefix s p = or_self (strip_prefix s p) s

abbrev cons_some : ℕ → Option Bytes → Option Bytes
cons_some x none = none
cons_some x (some r) = some (x ∷ r)

-- The text without a suffix, if it has it: the shortest part before it.
unfoldable pub strip_suffix : Bytes → Bytes → Option Bytes
unfolding strip_prefix
strip_suffix [] p = if p == [] then some [] else none
strip_suffix (x ∷ s) p =
    let rest = cons_some x (strip_suffix s p) in if x ∷ s == p then some [] else rest

unfoldable pub has_suffix : Bytes → Bytes → Bool
unfolding strip_suffix
has_suffix s p = is_some (strip_suffix s p)

unfoldable pub trim_suffix : Bytes → Bytes → Bytes
unfolding strip_suffix
trim_suffix s p = or_self (strip_suffix s p) s

-- `strings.Index` and the slices round it: what stands before and after the first occurrence.
unfoldable pub cut : Bytes → Bytes → Option (Bytes × Bytes)
unfolding strip_prefix
cut [] sub = elim (strip_prefix [] sub) [ none ↦ none | some r ↦ some ([], r) ]
cut (x ∷ s) sub =
    let rest : Option (Bytes × Bytes) = elim (cut s sub) [
      | none ↦ none
      | some (b, a) ↦ some (x ∷ b, a)
    ] in
    elim (strip_prefix (x ∷ s) sub) [ none ↦ rest | some r ↦ some ([], r) ]

abbrev push_kept : ℕ → ℕ → Bytes → Bytes
push_kept c x [] = if x == c then [] else x ∷ []
push_kept c x (y ∷ r) = x ∷ y ∷ r

-- `strings.TrimRight(s, "c")` and `strings.TrimLeft(s, "c")` at one byte.
unfoldable pub trim_right : Bytes → ℕ → Bytes
trim_right [] c = []
trim_right (x ∷ s) c = push_kept c x (trim_right s c)

unfoldable pub trim_left : Bytes → ℕ → Bytes
trim_left [] c = []
trim_left (x ∷ s) c = let rest = trim_left s c in if x == c then rest else x ∷ s

-- `strings.ToLower` and `strings.TrimSpace`, on ASCII.
unfoldable pub to_lower : Bytes → Bytes
to_lower [] = []
to_lower (x ∷ s) = (if leb b'A' x && leb x b'Z' then x + 32 else x) ∷ to_lower s

abbrev is_space : ℕ → Bool
is_space x = x == b' ' || (leb 9 x && leb x 13)

trim_space_left : Bytes → Bytes
trim_space_left [] = []
trim_space_left (x ∷ s) = let rest = trim_space_left s in if is_space x then rest else x ∷ s

abbrev push_text : ℕ → Bytes → Bytes
push_text x [] = if is_space x then [] else x ∷ []
push_text x (y ∷ r) = x ∷ y ∷ r

trim_space_right : Bytes → Bytes
trim_space_right [] = []
trim_space_right (x ∷ s) = push_text x (trim_space_right s)

unfoldable pub trim_space : Bytes → Bytes
unfolding trim_space_left trim_space_right
trim_space s = trim_space_right (trim_space_left s)

-- Byte-wise `<` of Go strings.
unfoldable pub text_lt : Bytes → Bytes → Bool
text_lt [] [] = false
text_lt [] (y ∷ t) = true
text_lt (x ∷ s) [] = false
text_lt (x ∷ s) (y ∷ t) = let rest = text_lt s t in if ltb x y then true else x == y && rest

pub strip_prefix-append : (p s : Bytes) → strip_prefix (p ++ s) p ≡ some s
unfolding strip_prefix
strip_prefix-append [] s = refl
strip_prefix-append (c ∷ p) s = ground (arith, strip_prefix-append p s)

pub strip_prefix-eq_some : (s p r : Bytes) → strip_prefix s p ≡ some r → s ≡ p ++ r
unfolding strip_prefix
strip_prefix-eq_some s [] r h = cc
strip_prefix-eq_some [] (c ∷ p) r h = cc
strip_prefix-eq_some (x ∷ s) (c ∷ p) r h = ground (arith, strip_prefix-eq_some s p r)

pub has_prefix-append : (p s : Bytes) → has_prefix (p ++ s) p ≡ true
unfolding has_prefix
has_prefix-append p s = rw strip_prefix-append

pub has_prefix_elim : (s p : Bytes) → has_prefix s p ≡ true → (r : Bytes) × (s ≡ p ++ r)
unfolding has_prefix
has_prefix_elim s p h = go (strip_prefix s p) refl h
  where
    go : (o : Option Bytes) → strip_prefix s p ≡ o → is_some o ≡ true → (r : Bytes) × (s ≡ p ++ r)
    go none e h = absurd (cc)
    go (some r) e h = (r, strip_prefix-eq_some s p r e)

pub trim_prefix-append : (p s : Bytes) → trim_prefix (p ++ s) p ≡ s
unfolding trim_prefix
trim_prefix-append p s = rw strip_prefix-append

-- The text before and after the first occurrence, and the occurrence, make up the text.
pub cut-eq_some : (s sub b a : Bytes) → cut s sub ≡ some (b, a) → s ≡ b ++ (sub ++ a)
unfolding cut
cut-eq_some [] sub b a h = ground (arith, strip_prefix-eq_some [] sub a)
cut-eq_some (x ∷ s) sub [] a h = ground (arith, strip_prefix-eq_some (x ∷ s) sub a)
cut-eq_some (x ∷ s) sub (y ∷ b) a h = ground (arith, cut-eq_some s sub b a)
