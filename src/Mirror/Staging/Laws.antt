-- ===== src/Mirror/Staging/Laws.antt =====
-- mirror/rpm.go and mirror/deb.go: staging leaves the live file alone.
use repo_sync.Base.{ℕ, ◌≡◌, refl, ◌∙◌, Bool, true, false, Option, none, if◌then◌else◌}
use repo_sync.Fetch.Download.{
  Digest, LocalFile, Slot, Reply, refused, not_modified, body, Outcome, Request, fetch_file,
  download, receive, place, settle, resume_offset, revalidate, again_after,
}
use repo_sync.Mirror.Staging.{stage_file}

receive_live :
    (digest : Digest) (resume : ℕ) (slot : Slot) (r : Reply)
    → ((receive digest none true resume slot r).1).dst ≡ slot.dst
unfolding receive place settle
receive_live digest resume slot (refused e) = refl
receive_live digest resume slot not_modified = refl
receive_live digest resume slot (body is_partial bytes false disk_ok t) = refl
receive_live digest resume slot (body is_partial bytes true true t) = refl
receive_live digest resume slot (body is_partial bytes true false t) = refl

choice_live :
    (dst : Option LocalFile) (c : Bool) (x y : Outcome × Slot)
    → (x.1).dst ≡ dst
    → (y.1).dst ≡ dst
    → ((if c then x else y).1).dst ≡ dst
choice_live dst true x y h k = h
choice_live dst false x y h k = k

pub stage_file_live :
    (digest : Digest) (live fresh : Bool) (request : Request) (slot : Slot)
    → ((stage_file digest live fresh request slot).1).dst ≡ slot.dst
unfolding stage_file fetch_file download resume_offset
stage_file_live digest live fresh request slot =
    let cleared = record slot { staged = none } in
    let first = receive_live digest 0 cleared (request (revalidate none fresh cleared) 0) in
    let mid = (receive digest none true 0 cleared (request (revalidate none fresh cleared) 0)).1 in
    let between = record mid { partial = none } in
    choice_live slot.dst (again_after 0 live _) _ _
      (receive_live digest 0 between (request (revalidate none fresh between) 0) ∙ first) first
