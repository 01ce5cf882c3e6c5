-- ===== src/State/Laws.antt =====
-- state/state.go: which repositories a request keeps alive.
use repo_sync.State.{kind_generic}
use repo_sync.Base.{Bool-cases}
use repo_sync.Base.{◌≡◌, ◌↔◌, ◌⊎◌, inl, inr, refl, true, false}
use repo_sync.Base.{Option, none, some, [], ◌∷◌, ◌++◌, arith, dec_eq, nat_eq, list_eq}
use repo_sync.Base.{if◌then◌else◌, ◌≢◌}
use repo_sync.Base.Bytes.{Bytes, lit, strip_prefix, strip_prefix-eq_some, strip_prefix-append}
use repo_sync.Base.Clock.{Time}
use repo_sync.Base.Dict.{lookup, retain, NodupKeys, lookup-retain, lookup-update_all}
use repo_sync.State.{Entry, Store, covers, is_member, slash_next, touch_repo_members}

slash_next_elim :
    (root req : Bytes) (o : Option Bytes)
    → strip_prefix req root ≡ o
    → slash_next o ≡ true
    → (r : Bytes) × (req ≡ root ++ (b'/' ∷ r))
slash_next_elim root req none e h = absurd (cc)
slash_next_elim root req (some []) e h = absurd (cc)
slash_next_elim root req (some (c ∷ r)) e h =
    (r, ground (arith, strip_prefix-eq_some req root (c ∷ r) e))

covers_below : (root r : Bytes) → slash_next (strip_prefix (root ++ (b'/' ∷ r)) root) ≡ true
unfolding nat_eq
covers_below root r = rw (strip_prefix-append root (b'/' ∷ r))

-- A request path is a root, or below it: the root is "/", or a slash follows it in the path.
abbrev pub IsCovered : (root req : Bytes) → Type 0
IsCovered root req = (req ≡ root) ⊎ ((root ≡ lit "/") ⊎ ((r : Bytes) × (req ≡ root ++ (b'/' ∷ r))))

-- A root covers a request path exactly if they are equal, the root is "/", or a slash follows the
-- root in the path: /repo does not cover /repository.
pub covers_iff : (root req : Bytes) → (covers root req ≡ true) ↔ IsCovered root req
unfolding covers
covers_iff root req = (
  λ h. elim (dec_eq req root) [
    | yes p ↦ inl p
    | no n ↦ elim (dec_eq root (lit "/")) [
      | yes q ↦ inr (inl q)
      | no m ↦ inr (inr (slash_next_elim root req (strip_prefix req root) refl (ground arith)))
    ]
  ],
  λ cases. elim cases [
    | inl p ↦ ground arith
    | inr (inl q) ↦ ground arith
    | inr (inr (r, e)) ↦ rw e (ground (arith, covers_below root r))
  ],
)

-- A repository with a root that covers the path.
abbrev pub Concerns : Bytes → Entry → Type 0
Concerns req e = (e.kind ≢ kind_generic) × (e.root ≢ []) × IsCovered e.root req

is_member_iff : (req : Bytes) (e : Entry) → (is_member req e ≡ true) ↔ Concerns req e
unfolding is_member
is_member_iff req e = (
  λ h. (ground arith, ground arith, (covers_iff e.root req).0 (ground arith)),
  λ h. ground (arith, h.0, h.1, (covers_iff e.root req).1 h.2),
)

touch-is_member :
    (req : Bytes) (now : Time) (s : Store) (key : Bytes) (e : Entry)
    → NodupKeys s.entries
    → lookup key s.entries ≡ some e
    → let t = touch_repo_members req now s in
      let touched = some (record e { last_requested = now }) in
      (is_member req e ≡ true → (lookup key t.1.entries ≡ touched) × (lookup key t.0 ≡ touched))
      × (is_member req e ≡ false → (lookup key t.1.entries ≡ some e) × (lookup key t.0 ≡ none))
unfolding touch_repo_members
touch-is_member req now s key e u h =
    let touch =
      λ (_ : Bytes) (x : Entry). if is_member req x then record x { last_requested = now } else x in
    ground (
      arith,
      lookup-update_all touch key s.entries,
      lookup-update_all touch key (retain (λ _ x. is_member req x) s.entries),
      lookup-retain (λ _ x. is_member req x) key s.entries u,
    )

-- A request refreshes and returns each entry that is no generic file and whose root, which is not
-- empty, is the request path, "/", or followed by a slash in the path. It changes and returns no other.
pub touch_repo_members_lem :
    (req : Bytes) (now : Time) (s : Store) (key : Bytes) (e : Entry)
    → NodupKeys s.entries
    → lookup key s.entries ≡ some e
    → let t = touch_repo_members req now s in
      let touched = some (record e { last_requested = now }) in
      (Concerns req e → (lookup key t.1.entries ≡ touched) × (lookup key t.0 ≡ touched))
      × (¬ Concerns req e → (lookup key t.1.entries ≡ some e) × (lookup key t.0 ≡ none))
touch_repo_members_lem req now s key e u h =
    let t = touch-is_member req now s key e u h in
    let m = is_member_iff req e in
    (
      λ c. t.0 (m.1 c),
      λ n. elim (Bool-cases (is_member req e)) [
        | inl member ↦ absurd (n (m.0 member))
        | inr other ↦ t.1 other
      ],
    )
