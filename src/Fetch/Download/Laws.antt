-- ===== src/Fetch/Download/Laws.antt =====
-- fetch/fetch.go: nothing is published that does not match what the metadata says of it.
use repo_sync.Base.{ℕ, ◌≡◌, ◌⊎◌, inl, refl, ◌∙◌, Bool, true, false, ◌&&◌, Option, none, some}
use repo_sync.Base.{◌++◌, arith, nat_eq, list_eq, ltb, if◌then◌else◌, length, length-append}
use repo_sync.Base.Clock.{Time}
use repo_sync.Fetch.Download.{
  Expect, Digest, LocalFile, Slot, unchanged, fetched, staged, FetchError, Outcome, done, failed,
  Reply, refused, not_modified, body, Request, best_sum, size_matches, sum_matches, checks,
  verify_local, content_of, place, settle, receive, again_after, found_locally, revalidate,
  download, resume_offset, fetch_file,
}

module _ (digest : Digest) (want : Expect) where
  -- The file has the size and the sum that are expected.
  pub record Matches (f : LocalFile) : Type 0 where
    pub size : size_matches want.size (length f.content) ≡ true
    pub sum : sum_matches digest (best_sum want) f.content ≡ true

  -- What a call may have done to the slot: the file in place is the old one, or it was fetched and
  -- matches; so for the staged file.
  abbrev pub Published : Slot → Slot → Outcome → Type 0
  Published old new (failed e) = (new.dst ≡ old.dst) × (new.staged ≡ old.staged)
  Published old new (done unchanged) = (new.dst ≡ old.dst) × (new.staged ≡ old.staged)
  Published old new (done fetched) =
      (f : LocalFile) × (new.dst ≡ some f) × (new.staged ≡ old.staged) × Matches f
  Published old new (done staged) =
      (f : LocalFile) × (new.staged ≡ some f) × (new.dst ≡ old.dst) × Matches f

  checks-Matches :
      (f : LocalFile) (total : ℕ)
      → total ≡ length f.content
      → checks digest (some want) total f.content ≡ none
      → Matches f
  checks-Matches f total e h = ground arith

  abbrev Sound : Slot → Outcome × Slot → Type 0
  Sound old r = Published old r.1 r.0

  settle-Published :
      (o : Option FetchError) (stage disk_ok : Bool) (f : LocalFile) (slot : Slot)
      → (o ≡ none → Matches f)
      → Sound slot (settle o stage disk_ok f slot)
  unfolding settle
  settle-Published (some e) stage disk_ok f slot m = (refl, refl)
  settle-Published none stage false f slot m = (refl, refl)
  settle-Published none true true f slot m = (f, refl, refl, m refl)
  settle-Published none false true f slot m = (f, refl, refl, m refl)

  place-Published :
      (stage disk_ok : Bool) (f : LocalFile) (total : ℕ) (slot : Slot)
      → total ≡ length f.content
      → Sound slot (place digest (some want) stage disk_ok total f slot)
  unfolding place
  place-Published stage disk_ok f total slot e =
      settle-Published (checks digest (some want) total f.content) stage disk_ok f slot
        (checks-Matches f total e)

  receive-Published :
      (stage : Bool) (resume : ℕ) (slot : Slot) (r : Reply)
      → (resume ≡ 0) ⊎ (resume ≡ length (content_of slot.partial))
      → Sound slot (receive digest (some want) stage resume slot r)
  unfolding receive
  receive-Published stage resume slot (refused e) h = (refl, refl)
  receive-Published stage resume slot not_modified h = (refl, refl)
  receive-Published stage resume slot (body is_partial bytes false disk_ok t) h = (refl, refl)
  receive-Published stage resume slot (body is_partial bytes true disk_ok t) h =
      let resumed = ltb 0 resume && is_partial in
      let whole = if resumed then content_of slot.partial ++ bytes else bytes in
      place-Published stage disk_ok (record { content = whole; modified = t }) _ slot
        (ground (arith, length-append (content_of slot.partial) bytes))

  download-Published :
      (request : Request) (stage force : Bool) (resume : ℕ) (slot : Slot)
      → (resume ≡ 0) ⊎ (resume ≡ length (content_of slot.partial))
      → Sound slot (download digest request (some want) stage resume force slot)
  unfolding download
  download-Published request stage force resume slot h =
      receive-Published stage resume slot (request (revalidate (some want) force slot) resume) h

  resume_offset_lem :
      (slot : Slot)
      → (resume_offset (some want) slot ≡ 0)
        ⊎ (resume_offset (some want) slot ≡ length (content_of slot.partial))
  unfolding resume_offset
  resume_offset_lem slot = ground arith

  -- A second attempt starts from the file in place that the first one left.
  after_first :
      (old mid : Slot) (r : Outcome × Slot)
      → (mid.dst ≡ old.dst) × (mid.staged ≡ old.staged)
      → Sound mid r
      → Sound old r
  after_first old mid (failed e, new) (same, still) (h, k) = (h ∙ same, k ∙ still)
  after_first old mid (done unchanged, new) (same, still) (h, k) = (h ∙ same, k ∙ still)
  after_first old mid (done fetched, new) (same, still) (f, put, k, m) = (f, put, k ∙ still, m)
  after_first old mid (done staged, new) (same, still) (f, put, kept, m) = (f, put, kept ∙ same, m)

  second_try :
      (old : Slot) (o : Outcome × Slot) (live : Bool) (resume : ℕ) (r : Outcome × Slot)
      → again_after resume live o.0 ≡ true
      → Sound old o
      → Sound (record (o.1) { partial = none }) r
      → Sound old r
  second_try old (failed e, mid) live resume r a h k =
      after_first old (record mid { partial = none }) r h k
  second_try old (done s, mid) live resume r a h k = absurd (cc)

  choice-Sound :
      (old : Slot) (b c : Bool) (x y z : Outcome × Slot)
      → Sound old x
      → (c ≡ true → Sound old y)
      → Sound old z
      → Sound old (if b then x else if c then y else z)
  choice-Sound old true c x y z hx hy hz = hx
  choice-Sound old false true x y z hx hy hz = hy refl
  choice-Sound old false false x y z hx hy hz = hz

  -- What a call starts from: to stage a file, it removes the one staged before.
  abbrev pub cleared_slot : (stage : Bool) → Slot → Slot
  cleared_slot stage slot = if stage then record slot { staged = none } else slot

  -- Whatever the mirror sends, in one attempt or two, whether the body breaks off or the disk fails:
  -- the file in place stays the old one or becomes one that matches. A staged file after a call that
  -- stages matches, and there is none if the call does not end with one; another call leaves the staged
  -- file alone.
  pub fetch_file-Published :
      (request again : Request) (live stage verify force : Bool) (slot : Slot)
      → let (o, slot') = fetch_file digest request again live (some want) stage verify force slot in
        Published (cleared_slot stage slot) slot' o
  unfolding fetch_file
  fetch_file-Published request again live stage verify force slot =
      let cleared = cleared_slot stage slot in
      let resume = resume_offset (some want) cleared in
      let first = download digest request (some want) stage resume force cleared in
      let between = record (first.1) { partial = none } in
      let second = download digest again (some want) stage 0 force between in
      let sound : Sound cleared first =
        download-Published request stage force resume cleared (resume_offset_lem cleared) in
      choice-Sound cleared (found_locally digest verify (some want) cleared)
        (again_after resume live first.0) (done unchanged, cleared) second first (refl, refl)
        (λ a.
          second_try cleared first live resume second a sound
            (download-Published again stage force 0 between (inl refl)))
        sound

  checks_of_Matches :
      (f : LocalFile) → Matches f → checks digest (some want) (length f.content) f.content ≡ none
  checks_of_Matches f m = ground (arith, m.size, m.sum)

  -- If the file in place does not match already, and the mirror answers each request with the whole
  -- of a body that matches, the body is put into place, or next to it when staging, whatever earlier
  -- attempts left.
  pub fetch_file-whole :
      (request again : Request) (live stage verify force : Bool) (slot : Slot) (f : LocalFile)
      → Matches f
      → ((t : Option Time) (resume : ℕ)
          → request t resume ≡ body false f.content true true f.modified)
      → verify_local digest verify want slot.dst ≡ false
      → let (o, slot') = fetch_file digest request again live (some want) stage verify force slot in
        if stage
        then (o ≡ done staged) × (slot'.staged ≡ some f)
        else (o ≡ done fetched) × (slot'.dst ≡ some f)
  unfolding fetch_file download receive place settle
  fetch_file-whole request again live true verify force slot f m ask h =
      let cleared = record slot { staged = none } in
      let resume = resume_offset (some want) cleared in
      ground (arith, ask (revalidate (some want) force cleared) resume, checks_of_Matches f m)
  fetch_file-whole request again live false verify force slot f m ask h =
      let resume = resume_offset (some want) slot in
      ground (arith, ask (revalidate (some want) force slot) resume, checks_of_Matches f m)
