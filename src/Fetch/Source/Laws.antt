-- ===== src/Fetch/Source/Laws.antt =====
-- fetch/source.go, `Get`: which mirror answers.
use mathlib.Core.Path.{subst}
use native.Mathlib.Nat.{mod-lt}
use repo_sync.Base.{
  ℕ, zero, suc, ◌+◌, ◌%◌, ◌≤◌, ◌<◌, ◌≡◌, ◌≢◌, ◌⊎◌, inl, inr, refl, ap, sym, ◌∙◌, Bool, false,
}
use repo_sync.Base.{
  Option, none, some, [], arith, ◌==◌, nat_eq, list_eq, length, Option-cases, dec_eq,
}
use repo_sync.Base.Bytes.{Bytes}
use repo_sync.Fetch.Source.{
  Source, Answer, bad_url, transport_error, status, GetError, GetResult, response, error,
  last_error, no_mirrors, judge, moved, target, base_at, get_from, get,
}

module _ (ask : Bytes → Answer) (conditional : Bool) (path : Bytes) (s : Source) where
  -- The i-th mirror asked, from the active one on and round to it, and what its answer comes to.
  abbrev pub asked : ℕ → ℕ
  asked i = (s.active + i) % length s.bases

  abbrev pub outcome : ℕ → Option GetResult
  outcome i = judge conditional (asked i) (ask (target (base_at s.bases (asked i)) path))

  -- The first mirror whose answer settles the request.
  pub record Settled (lo n : ℕ) (r : GetResult) : Type 0 where
    pub at : ℕ
    pub from : lo ≤ at
    pub below : at < n
    pub settles : outcome at ≡ some r
    pub others : (j : ℕ) → lo ≤ j → j < at → outcome j ≡ none

  -- Every mirror was asked, and none settled it.
  pub record Exhausted (lo n : ℕ) (r : GetResult) : Type 0 where
    pub none_left : (j : ℕ) → lo ≤ j → j < n → outcome j ≡ none
    pub fails : (e : GetError) × (r ≡ error e)

  -- A round that settles nothing leaves the question to the rounds after it.
  later :
      (i n : ℕ) {r : GetResult}
      → outcome i ≡ none
      → Settled (suc i) n r ⊎ Exhausted (suc i) n r
      → Settled i n r ⊎ Exhausted i n r
  later i n next (inl st) = inl (record {
    at = st.at;
    from = omega arith;
    below = st.below;
    settles = st.settles;
    others =
        λ j lo hi. elim (dec_eq j i) [ yes p ↦ rw p next | no m ↦ st.others j (omega arith) hi ];
  })
  later i n next (inr ex) = inr (record {
    none_left =
        λ j lo hi. elim (dec_eq j i) [ yes p ↦ rw p next | no m ↦ ex.none_left j (omega arith) hi ];
    fails = ex.fails;
  })

  next_round :
      (rounds i : ℕ) (last : GetError)
      → outcome i ≡ none
      → get_from ask conditional path s (suc rounds) i last
        ≡ get_from ask conditional path s rounds
            (suc i)
            (last_error (ask (target (base_at s.bases (asked i)) path)))
  unfolding get_from
  next_round rounds i last next = ground arith

  get_from_lem :
      (rounds i n : ℕ) (last : GetError)
      → i + rounds ≡ n
      → let r = get_from ask conditional path s rounds i last in Settled i n r ⊎ Exhausted i n r
  unfolding get_from
  get_from_lem zero i n last e =
      inr (record { none_left = λ j lo hi. absurd (omega arith); fails = (last, refl) })
  get_from_lem (suc rounds) i n last e = elim (Option-cases (outcome i)) [
    | inr (r, now) ↦ inl (record {
      at = i;
      from = omega arith;
      below = omega arith;
      settles = ground arith;
      others = λ j lo hi. absurd (omega arith);
    })
    | inl next ↦
        subst (λ r. Settled i n r ⊎ Exhausted i n r) (sym (next_round rounds i last next))
          (later i n next (
            get_from_lem rounds (suc i) n
              (last_error (ask (target (base_at s.bases (asked i)) path))) (omega arith)))
  ]

  bases_test : s.bases ≢ [] → (s.bases == []) ≡ false
  bases_test h = ground arith

  -- `Get` asks the mirrors from the active one on and returns what the first answer that settles the
  -- request says, or an error if none of them does, each having been asked.
  pub get_lem :
      s.bases ≢ []
      → let r = (get ask conditional path s).0 in
        Settled 0 (length s.bases) r ⊎ Exhausted 0 (length s.bases) r
  unfolding get
  get_lem some_mirror =
      rw (bases_test some_mirror) (get_from_lem (length s.bases) 0 _ no_mirrors (omega arith))

  judge-response :
      (i idx n : ℕ) (a : Answer) → judge conditional i a ≡ some (response idx n) → idx ≡ i
  unfolding judge
  judge-response i idx n bad_url h = ground arith
  judge-response i idx n transport_error h = ground arith
  judge-response i idx n (status k) h = ground arith

  response_in_range :
      (r : GetResult) (idx n : ℕ)
      → s.active < length s.bases
      → Settled 0 (length s.bases) r ⊎ Exhausted 0 (length s.bases) r
      → r ≡ response idx n
      → idx < length s.bases
  response_in_range r idx n h (inl st) e =
      let here : idx ≡ asked st.at =
        judge-response (asked st.at) idx n (ask (target (base_at s.bases (asked st.at)) path))
          (st.settles ∙ ap some e) in
      rw here (mod-lt (s.active + st.at) (omega arith))
  response_in_range r idx n h (inr ex) e = absurd (cc (ex.fails.1))

  moved_lem :
      (r : GetResult)
      → s.active < length s.bases
      → ((idx n : ℕ) → r ≡ response idx n → idx < length s.bases)
      → ((moved s r).active < length s.bases)
        × ((moved s r).bases ≡ s.bases)
        × ((idx n : ℕ) → r ≡ response idx n → (moved s r).active ≡ idx)
  moved_lem (response i k) h range =
      let lt = range i k refl in (ground arith, ground arith, λ idx n e. ground arith)
  moved_lem (error e) h range = (h, refl, λ idx n e. absurd (cc))

  -- The active mirror stays one of the source's, and after a response it is the one that answered.
  pub get_active :
      s.active < length s.bases
      → let (r, s') = get ask conditional path s in
        (s'.active < length s.bases)
        × (s'.bases ≡ s.bases)
        × ((idx n : ℕ) → r ≡ response idx n → s'.active ≡ idx)
  unfolding get
  get_active h =
      let some_mirror : s.bases ≢ [] = λ e. ground arith in
      let r = get_from ask conditional path s (length s.bases) 0 no_mirrors in
      rw (bases_test some_mirror) (
        moved_lem r h (λ idx n e.
          response_in_range r idx n h (get_from_lem (length s.bases) 0 _ no_mirrors (omega arith))
            e))
