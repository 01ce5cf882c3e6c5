-- ===== src/Base/Paths/Laws.antt =====
-- Clean rooted paths are their segments.
use mathlib.Core.List.{
  reverse, reverse-append, reverse-reverse, reverse_aux, append-nil, append_assoc,
}
use mathlib.Core.Path.{◌≡⟨◌⟩◌, ◌∎}
use repo_sync.Base.{
  ℕ, ◌≡◌, ◌≢◌, ◌⊎◌, inl, inr, refl, ap, sym, ◌∙◌, Bool, true, false, List, [], ◌∷◌, ◌++◌, arith,
}
use repo_sync.Base.{nat_eq, list_eq, contains, All}
use repo_sync.Base.Bytes.{Bytes, lit, has_prefix}
use repo_sync.Base.Paths.{
  cons_head, split, slashed, clean_step, clean_onto, clean_segments, clean, join_rooted, dir,
  without_last, last_or_slash,
}

-- A segment that `Clean` keeps on a rooted path: not empty, no dots, no slash.
pub record IsSegment (w : Bytes) : Type 0 where
  pub not_empty : w ≢ []
  pub not_dot : w ≢ lit "."
  pub not_dots : w ≢ lit ".."
  pub no_slash : contains w b'/' ≡ false

abbrev pub AreSegments : List Bytes → Type 0
AreSegments = All IsSegment

abbrev prepend : Bytes → List Bytes → List Bytes
prepend w [] = w ∷ []
prepend w (v ∷ vs) = (w ++ v) ∷ vs

prepend-cons : (x : ℕ) (w : Bytes) (l : List Bytes) → cons_head x (prepend w l) ≡ prepend (x ∷ w) l
prepend-cons x w [] = refl
prepend-cons x w (v ∷ vs) = refl

-- A split is never empty.
split_cons : (s : Bytes) → split s ≢ []
unfolding split
split_cons [] e = cc
split_cons (x ∷ s) e = ground (arith, split_cons s)

prepend_nil : (l : List Bytes) → l ≢ [] → l ≡ prepend [] l
prepend_nil [] h = absurd (h refl)
prepend_nil (v ∷ vs) h = refl

split-append : (w s : Bytes) → contains w b'/' ≡ false → split (w ++ s) ≡ prepend w (split s)
unfolding split
split-append [] s h = prepend_nil (split s) (split_cons s)
split-append (x ∷ w) s h = ground (arith, split-append w s, prepend-cons x w (split s))

pub split-slashed : (ws : List Bytes) → AreSegments ws → split (slashed ws) ≡ [] ∷ ws
unfolding split slashed
split-slashed [] h = refl
split-slashed (w ∷ ws) h =
    ground (arith, split-append w (slashed ws) (h.0).no_slash, split-slashed ws h.1, append-nil w)

split-join : (s t : Bytes) → split (s ++ (b'/' ∷ t)) ≡ split s ++ split t
unfolding split nat_eq
split-join [] t = refl
split-join (x ∷ s) t = ground (arith, split-join s t, split_cons s)

clean_onto-append :
    (r : Bool) (st xs ys : List Bytes)
    → clean_onto r st (xs ++ ys) ≡ clean_onto r (clean_onto r st xs) ys
unfolding clean_onto
clean_onto-append r st [] ys = refl
clean_onto-append r st (x ∷ xs) ys = clean_onto-append r (clean_step r st x) xs ys

clean_step-segment :
    (r : Bool) (st : List Bytes) (w : Bytes) → IsSegment w → clean_step r st w ≡ w ∷ st
unfolding clean_step
clean_step-segment r st w h = ground (arith, h.not_empty, h.not_dot, h.not_dots)

-- Segments that need no cleaning are pushed as they stand.
clean_onto-segments :
    (r : Bool) (st ws : List Bytes) → AreSegments ws → clean_onto r st ws ≡ reverse ws ++ st
unfolding clean_onto
clean_onto-segments r st [] h = refl
clean_onto-segments r st (w ∷ ws) h =
    clean_onto r (clean_step r st w) ws
    ≡⟨ ap (λ l. clean_onto r l ws) (clean_step-segment r st w h.0) ⟩ clean_onto r (w ∷ st) ws
    ≡⟨ clean_onto-segments r (w ∷ st) ws h.1 ⟩ reverse ws ++ w ∷ st
    ≡⟨ sym (append_assoc (reverse ws) (w ∷ []) st)
      ∙ ap (λ l. l ++ st) (sym (reverse-append (w ∷ []) ws)) ⟩
      reverse (w ∷ ws) ++ st ∎

no_slash_split : (s : Bytes) → All (λ w. contains w b'/' ≡ false) (split s)
unfolding split
no_slash_split [] = (refl, tt)
no_slash_split (x ∷ s) = ground (arith, no_slash_split s, split_cons s)

clean_step-AreSegments :
    (st : List Bytes) (w : Bytes)
    → AreSegments st
    → contains w b'/' ≡ false
    → AreSegments (clean_step true st w)
unfolding clean_step
clean_step-AreSegments st w h k = ground arith

clean_onto-AreSegments :
    (st ws : List Bytes)
    → AreSegments st
    → All (λ w. contains w b'/' ≡ false) ws
    → AreSegments (clean_onto true st ws)
unfolding clean_onto
clean_onto-AreSegments st [] h k = h
clean_onto-AreSegments st (w ∷ ws) h k =
    clean_onto-AreSegments (clean_step true st w) ws (clean_step-AreSegments st w h k.0) k.1

All-append : (xs ys : List Bytes) → AreSegments xs → AreSegments ys → AreSegments (xs ++ ys)
All-append [] ys hx hy = hy
All-append (x ∷ xs) ys hx hy = (hx.0, All-append xs ys hx.1 hy)

All-reverse_aux :
    (xs acc : List Bytes) → AreSegments xs → AreSegments acc → AreSegments (reverse_aux xs acc)
All-reverse_aux [] acc hx ha = ha
All-reverse_aux (x ∷ xs) acc hx ha = All-reverse_aux xs (x ∷ acc) hx.1 (hx.0, ha)

-- What `Clean` keeps of a rooted path are segments.
pub clean_segments-AreSegments : (s : Bytes) → AreSegments (clean_segments true s)
unfolding clean_segments
clean_segments-AreSegments s =
    All-reverse_aux (clean_onto true [] (split s)) []
      (clean_onto-AreSegments [] (split s) tt (no_slash_split s)) tt

pub clean-rooted :
    (s : Bytes) → has_prefix s (lit "/") ≡ true → clean s ≡ join_rooted (clean_segments true s)
unfolding clean
clean-rooted s h = ground arith

split-join_rooted :
    (st ws : List Bytes)
    → AreSegments ws
    → clean_onto true st (split (join_rooted ws)) ≡ reverse ws ++ st
unfolding clean_onto split nat_eq list_eq
split-join_rooted st [] h = refl
split-join_rooted st (w ∷ ws) h =
    ap (clean_onto true st) (split-slashed (w ∷ ws) h) ∙ clean_onto-segments true st (w ∷ ws) h

-- A clean rooted path below another one adds its segments.
pub clean_segments-join :
    (s : Bytes) (ws : List Bytes)
    → AreSegments ws
    → clean_segments true (s ++ (b'/' ∷ join_rooted ws)) ≡ clean_segments true s ++ ws
unfolding clean_segments
clean_segments-join s ws h =
    reverse (clean_onto true [] (split (s ++ (b'/' ∷ join_rooted ws))))
    ≡⟨ ap (λ l. reverse (clean_onto true [] l)) (split-join s (join_rooted ws)) ⟩
      reverse (clean_onto true [] (split s ++ split (join_rooted ws)))
    ≡⟨ ap reverse (clean_onto-append true [] (split s) (split (join_rooted ws))) ⟩
      reverse (clean_onto true (clean_onto true [] (split s)) (split (join_rooted ws)))
    ≡⟨ ap reverse (split-join_rooted (clean_onto true [] (split s)) ws h) ⟩
      reverse (reverse ws ++ clean_onto true [] (split s))
    ≡⟨ reverse-append (reverse ws) (clean_onto true [] (split s)) ⟩
      reverse (clean_onto true [] (split s)) ++ reverse (reverse ws)
    ≡⟨ ap (λ l. reverse (clean_onto true [] (split s)) ++ l) (reverse-reverse ws) ⟩
      reverse (clean_onto true [] (split s)) ++ ws ∎

-- So do segments that follow it, each after a slash.
pub clean_segments-slashed :
    (s w : Bytes) (ws : List Bytes)
    → AreSegments (w ∷ ws)
    → clean_segments true (s ++ slashed (w ∷ ws)) ≡ clean_segments true s ++ (w ∷ ws)
unfolding clean_segments slashed
clean_segments-slashed s w ws h =
    reverse (clean_onto true [] (split (s ++ (b'/' ∷ (w ++ slashed ws)))))
    ≡⟨ ap (λ l. reverse (clean_onto true [] l)) (split-join s (w ++ slashed ws)) ⟩
      reverse (clean_onto true [] (split s ++ split (w ++ slashed ws)))
    ≡⟨ ap (λ l. reverse (clean_onto true [] (split s ++ l)))
        (split-append w (slashed ws) (h.0).no_slash
          ∙ ap (prepend w) (split-slashed ws h.1)
          ∙ ap (λ v. v ∷ ws) (append-nil w)) ⟩
      reverse (clean_onto true [] (split s ++ (w ∷ ws)))
    ≡⟨ ap reverse (
        clean_onto-append true [] (split s) (w ∷ ws)
        ∙ clean_onto-segments true (clean_onto true [] (split s)) (w ∷ ws) h) ⟩
      reverse (reverse (w ∷ ws) ++ clean_onto true [] (split s))
    ≡⟨ reverse-append (reverse (w ∷ ws)) (clean_onto true [] (split s)) ⟩
      reverse (clean_onto true [] (split s)) ++ reverse (reverse (w ∷ ws))
    ≡⟨ ap (λ l. reverse (clean_onto true [] (split s)) ++ l) (reverse-reverse (w ∷ ws)) ⟩
      reverse (clean_onto true [] (split s)) ++ (w ∷ ws) ∎

pub slashed-append : (xs ys : List Bytes) → slashed (xs ++ ys) ≡ slashed xs ++ slashed ys
unfolding slashed
slashed-append [] ys = refl
slashed-append (x ∷ xs) ys =
    ap (λ t. b'/' ∷ t)
      (ap (λ t. x ++ t) (slashed-append xs ys) ∙ sym (append_assoc x (slashed xs) (slashed ys)))

-- A path that is clean already keeps its segments.
pub clean_segments-join_rooted :
    (ws : List Bytes) → AreSegments ws → clean_segments true (join_rooted ws) ≡ ws
unfolding clean_segments
clean_segments-join_rooted ws h =
    ap reverse (split-join_rooted [] ws h ∙ append-nil (reverse ws)) ∙ reverse-reverse ws

slashed_last :
    (w : Bytes) (ws : List Bytes)
    → slashed (w ∷ ws) ≡ slashed (without_last (w ∷ ws)) ++ (b'/' ∷ last_or_slash (w ∷ ws))
unfolding slashed
slashed_last w [] = ap (λ t. b'/' ∷ t) (append-nil w)
slashed_last w (v ∷ ws) =
    ap (λ t. b'/' ∷ t)
      (ap (λ t. w ++ t) (slashed_last v ws)
        ∙ sym (append_assoc w (slashed (without_last (v ∷ ws))) (b'/' ∷ last_or_slash (v ∷ ws))))

-- A clean path is below its directory.
pub dir-join_rooted :
    (ws : List Bytes)
    → AreSegments ws
    → (dir (join_rooted ws) ≡ lit "/")
      ⊎ ((r : Bytes) × (join_rooted ws ≡ dir (join_rooted ws) ++ (b'/' ∷ r)))
unfolding dir
dir-join_rooted [] h =
    inl (ap (λ l. join_rooted (without_last l)) (clean_segments-join_rooted [] h))
dir-join_rooted (w ∷ []) h =
    inl (ap (λ l. join_rooted (without_last l)) (clean_segments-join_rooted (w ∷ []) h))
dir-join_rooted (w ∷ v ∷ ws) h = inr (
  last_or_slash (w ∷ v ∷ ws),
  rw (clean_segments-join_rooted (w ∷ v ∷ ws) h) (slashed_last w (v ∷ ws)),
)
