-- ===== src/Mirror/Deb/Stage/Laws.antt =====
-- mirror/deb.go: the staging of release documents keeps to the signature mode.
use repo_sync.Base.{
  ◌≡◌, inl, inr, refl, ◌∙◌, Bool, true, false, not, Option, none, some, ◌==◌, nat_eq, list_eq,
  arith, Option-cases,
}
use repo_sync.Base.Bytes.{Bytes}
use repo_sync.Fetch.Download.{Digest, LocalFile, Slot, FetchError}
use repo_sync.Fetch.Promote.{staged_or_final}
use repo_sync.Mirror.Signatures.{SignatureMode, signature_off, mode_or_off}
use repo_sync.Mirror.Staging.Laws.{stage_file_live}
use repo_sync.Mirror.Deb.Stage.{
  fetch_failed, no_verifier, unreadable, bad_in_release, no_release, DebSet, DebRequests,
  Signatures, set_in, set_release, Clear, no_file, bad, good, read_clear, check_gpg, accept_in,
  in_second, after_in, refetch_in, in_first, check_in, read_selected, select_data, check_release,
  first_gpg, first_release, first_in, stage_set, new_set, stage_deb_release,
}
use repo_sync.Mirror.Deb.Stage.Pair.{
  SameLive, has_failed, Vouched, Good, check_gpg-Good, fail-Good, if-Good,
}

module _ (digest : Digest) (live : Bool) (ask : DebRequests) (mode : SignatureMode)
    (check : Signatures) (old : DebSet) where
  read_clear_good :
      (r : DebSet) (text : Bytes)
      → read_clear digest live ask mode check r ≡ good text
      → (f : LocalFile) × (staged_or_final r.in_release ≡ some f)
        × (check.clearsigned f.content ≡ some text)
  unfolding read_clear
  read_clear_good r text e = elim (Option-cases (staged_or_final r.in_release)) [
    | inl gone ↦ absurd (ground (arith, e, gone))
    | inr (f, here) ↦ elim (Option-cases (check.clearsigned f.content)) [
      | inl bad_ ↦ absurd (ground (arith, e, here, bad_))
      | inr (t, ok) ↦ (f, here, ground (arith, e, here, ok))
    ]
  ]

  accept_in-Good :
      (text : Bytes) (r : DebSet)
      → SameLive old r
      → r.no_in_release ≡ false
      → read_clear digest live ask mode check r ≡ good text
      → Good digest live ask mode check old
          (check_gpg digest live ask mode check (accept_in digest live ask mode check text r))
  accept_in-Good text r h here e =
      let (f, at, ok) = read_clear_good r text e in
      check_gpg-Good digest live ask mode check old _
        (record { in_release = h.in_release; release = h.release; gpg = h.gpg })
        (inr ((here, (f, at, ok)), refl))

  in_second-Good :
      (c : Clear) (r : DebSet)
      → SameLive old r
      → r.no_in_release ≡ false
      → read_clear digest live ask mode check r ≡ c
      → Good digest live ask mode check old (in_second digest live ask mode check c r)
  in_second-Good no_file r h here e = fail-Good digest live ask mode check old unreadable r h
  in_second-Good bad r h here e = fail-Good digest live ask mode check old bad_in_release r h
  in_second-Good (good text) r h here e = accept_in-Good text r h here e

  after_in-Good :
      (o : Option Bool) (e : FetchError) (slot : Slot) (r : DebSet)
      → SameLive old r
      → slot.dst ≡ r.in_release.dst
      → r.authenticated ≡ false
      → Good digest live ask mode check old (after_in digest live ask mode check o e slot r)
  after_in-Good none e slot r h same au =
      fail-Good digest live ask mode check old (fetch_failed e) _
        (record { in_release = same ∙ h.in_release; release = h.release; gpg = h.gpg })
  after_in-Good (some true) e slot r h same au =
      check_gpg-Good digest live ask mode check old _
        (record { in_release = same ∙ h.in_release; release = h.release; gpg = h.gpg })
        (inl (refl, au))
  after_in-Good (some false) e slot r h same au =
      in_second-Good _ (set_in slot false r)
        (record { in_release = same ∙ h.in_release; release = h.release; gpg = h.gpg }) refl refl

  in_first-Good :
      (c : Clear) (r : DebSet)
      → SameLive old r
      → r.no_in_release ≡ false
      → r.authenticated ≡ false
      → read_clear digest live ask mode check r ≡ c
      → Good digest live ask mode check old (in_first digest live ask mode check c r)
  unfolding refetch_in
  in_first-Good no_file r h here au e = fail-Good digest live ask mode check old unreadable r h
  in_first-Good bad r h here au e =
      after_in-Good _ _ _ r h (stage_file_live digest live true (ask.in_release true) r.in_release)
        au
  in_first-Good (good text) r h here au e = accept_in-Good text r h here e

  check_in-Good :
      (r : DebSet)
      → SameLive old r
      → r.authenticated ≡ false
      → Good digest live ask mode check old (check_in digest live ask mode check r)
  unfolding check_in
  check_in-Good r h au =
      if-Good digest live ask mode check old r.no_in_release _ _
        (λ gone. check_gpg-Good digest live ask mode check old r h (inl (gone, au)))
        (λ here. in_first-Good _ r h here au refl)

  read_selected-Good :
      (o : Option LocalFile) (r : DebSet)
      → SameLive old r
      → mode ≡ signature_off
      → Good digest live ask mode check old (read_selected digest live ask mode check o r)
  read_selected-Good none r h off = fail-Good digest live ask mode check old unreadable r h
  read_selected-Good (some f) r h off = (
    record { in_release = h.in_release; release = h.release; gpg = h.gpg },
    λ ok. record {
      signed = λ s. absurd (cc);
      unsigned = λ s. inl off;
      pair = λ m g. absurd (m off);
    },
  )

  check_release-Good :
      (v : Bool) (r : DebSet)
      → SameLive old r
      → r.authenticated ≡ false
      → Good digest live ask mode check old (check_release digest live ask mode check v r)
  unfolding check_release select_data
  check_release-Good v r h au =
      if-Good digest live ask mode check old (mode == signature_off) _ _
        (λ off.
          if-Good digest live ask mode check old (not r.no_in_release) _ _
            (λ e. read_selected-Good _ r h (ground arith))
            (λ e.
              if-Good digest live ask mode check old r.no_release _ _
                (λ n. fail-Good digest live ask mode check old no_release r h)
                (λ n. read_selected-Good _ r h (ground arith))))
        (λ on.
          if-Good digest live ask mode check old v _ _ (λ e. check_in-Good r h au)
            (λ e. fail-Good digest live ask mode check old no_verifier r h))

  first_gpg-Good :
      (v : Bool) (o : Option Bool) (e : FetchError) (slot : Slot) (r : DebSet)
      → SameLive old r
      → slot.dst ≡ r.gpg.dst
      → r.authenticated ≡ false
      → Good digest live ask mode check old (first_gpg digest live ask mode check v o e slot r)
  first_gpg-Good v none e slot r h same au =
      fail-Good digest live ask mode check old (fetch_failed e) _
        (record { in_release = h.in_release; release = h.release; gpg = same ∙ h.gpg })
  first_gpg-Good v (some b) e slot r h same au =
      check_release-Good v _
        (record { in_release = h.in_release; release = h.release; gpg = same ∙ h.gpg }) au

  first_release-Good :
      (v : Bool) (o : Option Bool) (e : FetchError) (slot : Slot) (r : DebSet)
      → SameLive old r
      → slot.dst ≡ r.release.dst
      → r.authenticated ≡ false
      → Good digest live ask mode check old (first_release digest live ask mode check v o e slot r)
  first_release-Good v none e slot r h same au = (
    record { in_release = h.in_release; release = same ∙ h.release; gpg = h.gpg },
    λ f. absurd (cc),
  )
  first_release-Good v (some b) e slot r h same au =
      first_gpg-Good v _ _ _ (set_release slot b r)
        (record { in_release = h.in_release; release = same ∙ h.release; gpg = h.gpg })
        (stage_file_live digest live false (ask.gpg false) r.gpg) au

  first_in-Good :
      (v : Bool) (o : Option Bool) (e : FetchError) (slot : Slot) (r : DebSet)
      → SameLive old r
      → slot.dst ≡ r.in_release.dst
      → r.authenticated ≡ false
      → Good digest live ask mode check old (first_in digest live ask mode check v o e slot r)
  first_in-Good v none e slot r h same au = (
    record { in_release = same ∙ h.in_release; release = h.release; gpg = h.gpg },
    λ f. absurd (cc),
  )
  first_in-Good v (some b) e slot r h same au =
      first_release-Good v _ _ _ (set_in slot b r)
        (record { in_release = same ∙ h.in_release; release = h.release; gpg = h.gpg })
        (stage_file_live digest live false (ask.release false) r.release) au

  stage_set-Good :
      (v : Bool) (r : DebSet)
      → SameLive old r
      → r.authenticated ≡ false
      → Good digest live ask mode check old (stage_set digest live ask mode check v r)
  unfolding stage_set
  stage_set-Good v r h au =
      first_in-Good v _ _ _ r h
        (stage_file_live digest live false (ask.in_release false) r.in_release) au

-- Whatever the mirror sends, staging leaves the live release files alone, and a set that it stages is
-- vouched for: an authenticated one by the signature inside InRelease or by that beside Release, over
-- the very text that the run goes on with; another one only if checks are off, or the repository has no
-- signature at all and the mode does not require one. Unless checks are off, a Release.gpg that the
-- repository has is good for the Release staged or in place. A Release beside an authenticated InRelease
-- and without a Release.gpg is not vouched for.
pub stage_deb_release-Vouched :
    (digest : Digest) (live : Bool) (ask : DebRequests) (mode : SignatureMode) (check : Signatures)
    (r : DebSet)
    → let x = stage_deb_release digest live ask mode (some check) r in
      SameLive r x.1 × (has_failed x.0 ≡ false → Vouched (mode_or_off mode) check x.1)
unfolding stage_deb_release
stage_deb_release-Vouched digest live ask mode check r =
    stage_set-Good digest live ask (mode_or_off mode) check r true (new_set r)
      (record { in_release = refl; release = refl; gpg = refl }) refl
