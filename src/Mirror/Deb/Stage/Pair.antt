-- ===== src/Mirror/Deb/Stage/Pair.antt =====
-- mirror/deb.go: what staged release documents have been checked for, and the check of the detached
-- signature.
use repo_sync.Base.{
  ◌≡◌, ◌≢◌, ◌⊎◌, inl, inr, refl, ◌∙◌, Bool, true, false, not, ◌&&◌, Option, none, some, ◌==◌,
  nat_eq, list_eq, if◌then◌else◌, arith,
}
use repo_sync.Fetch.Download.{Digest, LocalFile, Slot, FetchError}
use repo_sync.Fetch.Promote.{staged_or_final}
use repo_sync.Mirror.Signatures.{SignatureMode, signature_off, signature_required}
use repo_sync.Mirror.Staging.Laws.{stage_file_live}
use repo_sync.Mirror.Deb.Stage.{
  DebError, fetch_failed, unreadable, bad_gpg, gpg_alone, release_lost, no_release, unsigned,
  DebSet, cleanup, DebRequests, Signatures, Staged, fail, is_signed, read_release, finish,
  accept_gpg, gpg_second, after_gpg, refetch_gpg, after_release, refetch_pair, check_gpg,
}

-- The live files stay.
pub record SameLive (old new : DebSet) : Type 0 where
  pub in_release : new.in_release.dst ≡ old.in_release.dst
  pub release : new.release.dst ≡ old.release.dst
  pub gpg : new.gpg.dst ≡ old.gpg.dst

abbrev pub has_failed : Option DebError → Bool
has_failed none = false
has_failed (some e) = true

-- The payload is what the clearsigned document vouches for.
abbrev pub IsClear : Signatures → DebSet → Type 0
IsClear check r =
    (r.no_in_release ≡ false)
    × ((f : LocalFile) × (staged_or_final r.in_release ≡ some f)
        × (check.clearsigned f.content ≡ some r.payload))

-- The payload is the document that the detached signature vouches for.
abbrev pub IsDetached : Signatures → DebSet → Type 0
IsDetached check r =
    (r.no_in_release ≡ true)
    × ((r.no_release ≡ false) × (r.no_gpg ≡ false))
    × (check.detached (staged_or_final r.release) (staged_or_final r.gpg) ≡ true)
    × ((f : LocalFile) × (staged_or_final r.release ≡ some f) × (r.payload ≡ f.content))

-- What a set that was staged says of itself: its payload is vouched for, or it has no signature, which
-- the required mode does not take. A detached signature, if there is one, is good in either case.
pub record Vouched (mode : SignatureMode) (check : Signatures) (r : DebSet) : Type 0 where
  pub signed : r.authenticated ≡ true → IsClear check r ⊎ IsDetached check r
  pub unsigned :
      r.authenticated ≡ false
      → (mode ≡ signature_off)
        ⊎ ((mode ≢ signature_required) × (r.no_in_release ≡ true) × (r.no_gpg ≡ true))
  pub pair :
      mode ≢ signature_off
      → r.no_gpg ≡ false
      → (r.no_release ≡ false)
        × (check.detached (staged_or_final r.release) (staged_or_final r.gpg) ≡ true)

module _ (digest : Digest) (live : Bool) (ask : DebRequests) (mode : SignatureMode)
    (check : Signatures) (old : DebSet) where
  -- A result that keeps the live files, and whose set is vouched for unless it is an error.
  abbrev pub Good : Staged → Type 0
  Good x = SameLive old x.1 × (has_failed x.0 ≡ false → Vouched mode check x.1)

  pub if-Good :
      (b : Bool) (x y : Staged)
      → (b ≡ true → Good x)
      → (b ≡ false → Good y)
      → Good (if b then x else y)
  if-Good true x y h k = h refl
  if-Good false x y h k = k refl

  pub fail-Good : (e : DebError) (r : DebSet) → SameLive old r → Good (fail e r)
  unfolding cleanup
  fail-Good e r h =
      (record { in_release = h.in_release; release = h.release; gpg = h.gpg }, λ f. absurd (cc))

  -- What holds of a set whose InRelease is settled, and of one that `finish` gets.
  abbrev Settled : DebSet → Type 0
  Settled r =
      ((r.no_in_release ≡ true) × (r.authenticated ≡ false))
      ⊎ (IsClear check r × (r.authenticated ≡ true))

  abbrev Ready : DebSet → Type 0
  Ready r =
      ((r.no_in_release ≡ true) × (r.authenticated ≡ false) × (r.no_gpg ≡ true))
      ⊎ ((IsClear check r × (r.authenticated ≡ true))
          ⊎ ((r.no_in_release ≡ true)
              × (r.authenticated ≡ true)
              × (r.no_gpg ≡ false)
              × (check.detached (staged_or_final r.release) (staged_or_final r.gpg) ≡ true)))

  abbrev Paired : DebSet → Type 0
  Paired r =
      r.no_gpg ≡ false
      → (r.no_release ≡ false)
        × (check.detached (staged_or_final r.release) (staged_or_final r.gpg) ≡ true)

  read_release-Good :
      (o : Option LocalFile) (r : DebSet)
      → SameLive old r
      → r.no_in_release ≡ true
      → r.no_release ≡ false
      → (r.no_gpg && mode == signature_required) ≡ false
      → staged_or_final r.release ≡ o
      → Ready r
      → Paired r
      → Good (read_release digest live ask mode check o r)
  read_release-Good none r h gone has plain e ready pair = fail-Good unreadable r h
  read_release-Good (some f) r h gone has plain e (inl (a, au, alone)) pair = (
    record { in_release = h.in_release; release = h.release; gpg = h.gpg },
    λ ok. record {
      signed = λ s. absurd (cc);
      unsigned = λ s. inr (ground arith, gone, alone);
      pair = λ m. pair;
    },
  )
  read_release-Good (some f) r h gone has plain e (inr (inl (clear, au))) pair =
      absurd (ground arith)
  read_release-Good (some f) r h gone has plain e (inr (inr (a, au, g, det))) pair = (
    record { in_release = h.in_release; release = h.release; gpg = h.gpg },
    λ ok. record {
      signed = λ s. inr (gone, (has, g), det, (f, e, refl));
      unsigned = λ s. absurd (cc);
      pair = λ m. pair;
    },
  )

  finish_clear : (r : DebSet) → r.no_in_release ≡ false → Ready r → Paired r → Vouched mode check r
  finish_clear r here (inl (a, au, alone)) pair = absurd (cc)
  finish_clear r here (inr (inl (clear, au))) pair = record {
    signed = λ s. inl clear;
    unsigned = λ s. absurd (cc);
    pair = λ m. pair;
  }
  finish_clear r here (inr (inr (a, au, g, det))) pair = absurd (cc)

  finish-Good :
      (r : DebSet)
      → SameLive old r
      → Ready r
      → Paired r
      → Good (finish digest live ask mode check r)
  unfolding finish
  finish-Good r h ready pair =
      if-Good (not r.no_in_release) _ _ (λ e. (h, λ ok. finish_clear r (ground arith) ready pair))
        (λ gone.
          if-Good r.no_release _ _ (λ e. fail-Good no_release r h)
            (λ e.
              if-Good (r.no_gpg && mode == signature_required) _ _ (λ u. fail-Good unsigned r h)
                (λ plain.
                  read_release-Good (staged_or_final r.release) r h (ground arith) e plain refl
                    ready pair)))

  alone-Ready : (r : DebSet) → Settled r → r.no_gpg ≡ true → Ready r
  alone-Ready r (inl (a, au)) alone = inl (a, au, alone)
  alone-Ready r (inr clear) alone = inr (inl clear)

  accept-SameLive :
      (b : Bool) (r : DebSet)
      → SameLive old r
      → SameLive old (if b then record r { authenticated = true } else r)
  accept-SameLive true r h = record { in_release = h.in_release; release = h.release; gpg = h.gpg }
  accept-SameLive false r h = h

  accept-Ready :
      (b : Bool) (r : DebSet)
      → r.no_in_release ≡ b
      → Settled r
      → r.no_gpg ≡ false
      → check.detached (staged_or_final r.release) (staged_or_final r.gpg) ≡ true
      → Ready (if b then record r { authenticated = true } else r)
  accept-Ready true r e s g det = inr (inr (e, refl, g, det))
  accept-Ready false r e (inl (a, au)) g det = absurd (cc)
  accept-Ready false r e (inr clear) g det = inr (inl clear)

  accept-Paired :
      (b : Bool) (r : DebSet)
      → r.no_release ≡ false
      → check.detached (staged_or_final r.release) (staged_or_final r.gpg) ≡ true
      → Paired (if b then record r { authenticated = true } else r)
  accept-Paired true r has det = λ g. (has, det)
  accept-Paired false r has det = λ g. (has, det)

  accepted-Good :
      (r : DebSet)
      → SameLive old r
      → Settled r
      → r.no_gpg ≡ false
      → r.no_release ≡ false
      → is_signed digest live ask mode check r ≡ true
      → Good (finish digest live ask mode check (accept_gpg digest live ask mode check r))
  unfolding is_signed
  accepted-Good r h s g has det =
      finish-Good _ (accept-SameLive r.no_in_release r h)
        (accept-Ready r.no_in_release r refl s g det) (accept-Paired r.no_in_release r has det)

  gpg_second-Good :
      (r : DebSet) → SameLive old r → Settled r → Good (gpg_second digest live ask mode check r)
  unfolding gpg_second
  gpg_second-Good r h s =
      if-Good r.no_release _ _ (λ e. fail-Good release_lost r h)
        (λ e.
          if-Good r.no_gpg _ _ (λ alone. finish-Good r h (alone-Ready r s alone) (λ g. absurd (cc)))
            (λ g.
              if-Good (is_signed digest live ask mode check r) _ _ (accepted-Good r h s g e)
                (λ b. fail-Good bad_gpg r h)))

  after_gpg-Good :
      (o : Option Bool) (e : FetchError) (slot : Slot) (r : DebSet)
      → SameLive old r
      → slot.dst ≡ r.gpg.dst
      → Settled r
      → Good (after_gpg digest live ask mode check o e slot r)
  after_gpg-Good none e slot r h same s =
      fail-Good (fetch_failed e) _
        (record { in_release = h.in_release; release = h.release; gpg = same ∙ h.gpg })
  after_gpg-Good (some b) e slot r h same s =
      gpg_second-Good _
        (record { in_release = h.in_release; release = h.release; gpg = same ∙ h.gpg }) s

  refetch_gpg-Good :
      (r : DebSet) → SameLive old r → Settled r → Good (refetch_gpg digest live ask mode check r)
  unfolding refetch_gpg
  refetch_gpg-Good r h s =
      after_gpg-Good _ _ _ r h (stage_file_live digest live true (ask.gpg true) r.gpg) s

  after_release-Good :
      (o : Option Bool) (e : FetchError) (slot : Slot) (r : DebSet)
      → SameLive old r
      → slot.dst ≡ r.release.dst
      → Settled r
      → Good (after_release digest live ask mode check o e slot r)
  after_release-Good none e slot r h same s =
      fail-Good (fetch_failed e) _
        (record { in_release = h.in_release; release = same ∙ h.release; gpg = h.gpg })
  after_release-Good (some b) e slot r h same s =
      refetch_gpg-Good _
        (record { in_release = h.in_release; release = same ∙ h.release; gpg = h.gpg }) s

  pub check_gpg-Good :
      (r : DebSet) → SameLive old r → Settled r → Good (check_gpg digest live ask mode check r)
  unfolding check_gpg refetch_pair
  check_gpg-Good r h s =
      if-Good r.no_gpg _ _ (λ alone. finish-Good r h (alone-Ready r s alone) (λ g. absurd (cc)))
        (λ g.
          if-Good r.no_release _ _ (λ e. fail-Good gpg_alone r h)
            (λ e.
              if-Good (is_signed digest live ask mode check r) _ _ (accepted-Good r h s g e) (λ b.
                after_release-Good _ _ _ r h
                  (stage_file_live digest live true (ask.release true) r.release) s)))
