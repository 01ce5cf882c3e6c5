-- ===== src/Mirror/Deb/ByHash/Laws.antt =====
-- mirror/deb.go: which files `addByHash` changes.
use mathlib.Core.Path.{subst}
use repo_sync.Base.{
  dec_eq, some_inj, ◌≡◌, ◌⊎◌, inl, inr, refl, ◌∙◌, sym, ap, Bool, true, false, Option, none, some,
  List, [], ◌∷◌, ◌++◌, ◌==◌, nat_eq, list_eq, All, contains, arith, if◌then◌else◌, Bool-cases,
}
use repo_sync.Base.Bytes.{Bytes, lit, has_prefix, has_prefix-append}
use repo_sync.Base.Dict.{Dict, lookup}
use repo_sync.Base.Paths.{dir, slashed, clean_segments, join_rooted, without_last}
use repo_sync.Base.Paths.Laws.{IsSegment, AreSegments, clean-rooted, clean_segments-slashed}
use repo_sync.Fetch.Download.{LocalFile, Slot}
use repo_sync.Fetch.Jobs.{Tree, set_slot}
use repo_sync.Mirror.Deb.Release.{DebFile}
use repo_sync.Mirror.Deb.ByHash.{
  by_hash_dirs, Linked, made, not_made, LinkDisk, Links, add_link, link_path, add_links,
  add_by_hash,
}

-- The links of an index stand in the directory `by-hash` beside it.
abbrev pub IsLink : (dst path : Bytes) → Type 0
IsLink dst path =
    (sub : Bytes) × (digest : Bytes) × (path
      ≡ join_rooted (clean_segments true (dir dst) ++ (lit "by-hash" ∷ sub ∷ digest ∷ [])))
    × AreSegments (sub ∷ digest ∷ [])

-- The digests of a release that are names of files.
abbrev pub ArePlain : Dict Bytes Bytes → Type 0
ArePlain sums = All (λ (s : Bytes × Bytes). IsSegment s.1) sums

join_rooted_prefix :
    (ws : List Bytes) (t : Bytes) → has_prefix (join_rooted ws ++ t) (lit "/") ≡ true
unfolding slashed
join_rooted_prefix [] t = has_prefix-append (lit "/") t
join_rooted_prefix (w ∷ ws) t = has_prefix-append (lit "/") ((w ++ slashed ws) ++ t)

dir_prefix : (s t : Bytes) → has_prefix (dir s ++ t) (lit "/") ≡ true
unfolding dir
dir_prefix s t = join_rooted_prefix (without_last (clean_segments true s)) t

by_hash-IsSegment : IsSegment (lit "by-hash")
unfolding nat_eq
by_hash-IsSegment = record {
  not_empty = λ e. cc;
  not_dot = λ e. cc;
  not_dots = λ e. cc;
  no_slash = refl;
}

link_path-IsLink :
    (dst sub digest : Bytes)
    → AreSegments (sub ∷ digest ∷ [])
    → IsLink dst (link_path (dir dst) sub digest)
unfolding link_path
link_path-IsLink dst sub digest h = (
  sub,
  digest,
  clean-rooted (dir dst ++ slashed (lit "by-hash" ∷ sub ∷ digest ∷ []))
        (dir_prefix dst (slashed (lit "by-hash" ∷ sub ∷ digest ∷ [])))
      ∙ ap join_rooted (
          clean_segments-slashed (dir dst) (lit "by-hash") (sub ∷ digest ∷ [])
            (by_hash-IsSegment, h)),
  h,
)

-- A path keeps its files, or it is a link of the index where nothing stood.
abbrev pub OnlyLinks : (dst path : Bytes) → (old new : Tree) → Type 0
OnlyLinks dst path old new = (new path ≡ old path) ⊎ (IsLink dst path × ((old path).dst ≡ none))

OnlyLinks-trans :
    (dst path : Bytes) (a b c : Tree)
    → OnlyLinks dst path a b
    → OnlyLinks dst path b c
    → OnlyLinks dst path a c
OnlyLinks-trans dst path a b c (inr link) k = inr link
OnlyLinks-trans dst path a b c (inl e) (inl k) = inl (k ∙ e)
OnlyLinks-trans dst path a b c (inl e) (inr (link, gone)) =
    inr (link, ap (λ (s : Slot). s.dst) (sym e) ∙ gone)

set_slot-OnlyLinks :
    (dst path link : Bytes) (slot : Slot) (tree : Tree)
    → IsLink dst link
    → (tree link).dst ≡ none
    → OnlyLinks dst path tree (set_slot link slot tree)
set_slot-OnlyLinks dst path link slot tree h gone = elim (dec_eq path link) [
  | yes same ↦
      inr (subst (λ q. IsLink dst q) (sym same) h, ap (λ (q : Bytes). (tree q).dst) same ∙ gone)
  | no other ↦ inl (ground arith)
]

add_link-OnlyLinks :
    (dst path link : Bytes) (outcome : Linked) (old f : Option LocalFile) (links : Links)
    → IsLink dst link
    → (links.0 link).dst ≡ old
    → OnlyLinks dst path links.0 (add_link outcome old f link links).0
add_link-OnlyLinks dst path link outcome (some g) f (tree, keep) h e = inl refl
add_link-OnlyLinks dst path link made none f (tree, keep) h e =
    set_slot-OnlyLinks dst path link _ tree h e
add_link-OnlyLinks dst path link (not_made rest) none f (tree, keep) h e =
    set_slot-OnlyLinks dst path link _ tree h e

-- The directories that the algorithms have.
lookup-IsSegment :
    (d : Dict Bytes Bytes) (algo sub : Bytes)
    → ArePlain d
    → lookup algo d ≡ some sub
    → IsSegment sub
unfolding lookup
lookup-IsSegment [] algo sub h e = absurd (cc)
lookup-IsSegment ((k, v) ∷ d) algo sub (h, hs) e = elim (Bool-cases (algo == k)) [
  | inl same ↦ subst IsSegment (some_inj (ground (arith, e, same))) h
  | inr other ↦ lookup-IsSegment d algo sub hs (ground (arith, e, other))
]

by_hash_dirs-ArePlain : ArePlain by_hash_dirs
unfolding nat_eq
by_hash_dirs-ArePlain = (
  record { not_empty = λ e. cc; not_dot = λ e. cc; not_dots = λ e. cc; no_slash = refl },
  (
    record { not_empty = λ e. cc; not_dot = λ e. cc; not_dots = λ e. cc; no_slash = refl },
    (
      record { not_empty = λ e. cc; not_dot = λ e. cc; not_dots = λ e. cc; no_slash = refl },
      (record { not_empty = λ e. cc; not_dot = λ e. cc; not_dots = λ e. cc; no_slash = refl }, tt),
    ),
  ),
)

opt-OnlyLinks :
    {A : Type 0} (o : Option A) (dst path : Bytes) (old : Tree) (x : Links) (y : A → Links)
    → OnlyLinks dst path old x.0
    → ((a : A) → o ≡ some a → OnlyLinks dst path old (y a).0)
    → OnlyLinks dst path old (elim o as (λ (o : Option A). Links) [ none ↦ x | some a ↦ y a ]).0
opt-OnlyLinks none dst path old x y h k = h
opt-OnlyLinks (some a) dst path old x y h k = k a refl

if-OnlyLinks :
    (b : Bool) (dst path : Bytes) (old : Tree) (x y : Links)
    → OnlyLinks dst path old x.0
    → OnlyLinks dst path old y.0
    → OnlyLinks dst path old (if b then x else y).0
if-OnlyLinks true dst path old x y h k = h
if-OnlyLinks false dst path old x y h k = k

add_links-OnlyLinks :
    (disk : LinkDisk) (dst path : Bytes) (sums : Dict Bytes Bytes) (links : Links)
    → ArePlain sums
    → OnlyLinks dst path links.0 (add_links disk dst sums links).0
unfolding add_links
add_links-OnlyLinks disk dst path [] links h = inl refl
add_links-OnlyLinks disk dst path ((algo, digest) ∷ sums) links (h, hs) =
    opt-OnlyLinks (lookup algo by_hash_dirs) dst path links.0 _ _
      (add_links-OnlyLinks disk dst path sums links hs)
      (λ sub e.
        let link = link_path (dir dst) sub digest in
        let plain = lookup-IsSegment by_hash_dirs algo sub by_hash_dirs-ArePlain e in
        let next = add_link (disk.link link) (links.0 link).dst (links.0 dst).dst link links in
        if-OnlyLinks (disk.has_dir link) dst path links.0 _ _
          (OnlyLinks-trans dst path links.0 next.0 (add_links disk dst sums next).0
            (add_link-OnlyLinks dst path link (disk.link link) _ _ links
              (link_path-IsLink dst sub digest (plain, (h, tt))) refl)
            (add_links-OnlyLinks disk dst path sums next hs))
          (inl refl))

-- When an index is in place, its links by hash are new files in the directory `by-hash` beside it, and
-- no file that is there changes, on any disk, if the digests that the release gives are file names.
pub add_by_hash-OnlyLinks :
    (disk : LinkDisk) (dst rel_path : Bytes) (files : Dict Bytes DebFile) (links : Links)
    (path : Bytes)
    → ((f : DebFile) → lookup rel_path files ≡ some f → ArePlain f.sums)
    → OnlyLinks dst path links.0 (add_by_hash disk dst rel_path files links).0
unfolding add_by_hash
add_by_hash-OnlyLinks disk dst rel_path files links path h =
    opt-OnlyLinks (lookup rel_path files) dst path links.0 _ _ (inl refl) (λ f e.
      if-OnlyLinks (contains rel_path b'/') dst path links.0 _ _
        (add_links-OnlyLinks disk dst path f.sums links (h f e)) (inl refl))
