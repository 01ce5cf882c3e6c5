-- ===== src/Server/Serve/Online/Tracking.antt =====
-- server/serve.go: which repositories a request registers.
use repo_sync.State.{is_some}
use repo_sync.Base.{
  ◌≡◌, refl, ◌∙◌, sym, ap, Bool, true, false, ◌||◌, Option, none, some, nat_eq, list_eq,
  if◌then◌else◌, arith,
}
use repo_sync.Base.Bytes.{Bytes}
use repo_sync.Base.Clock.{Time}
use repo_sync.Base.Dict.{lookup, lookup-insert, lookup-erase}
use repo_sync.State.{mark_requested, delete}
use repo_sync.Server.Classify.{Resource}
use repo_sync.Server.Upstream.{regular_file, ServeError}
use repo_sync.Server.Protect.{is_protected}
use repo_sync.Server.Serve.{Response, World, Site, write_fetch_error, set_store}
use repo_sync.Server.Serve.Generic.Laws.{is_file}
use repo_sync.Server.Serve.Online.{
  finish_entry, after_contact, drop_entry, serve_unprotected, serve_entry_point,
}

abbrev pub is_tracked : Bytes → World → Bool
is_tracked key w = is_some (lookup key w.store.entries)

module _ (local : Bytes) (res : Resource) (tracked need : Bool) where
  finish_entry_tracked :
      (b : Bool) (w : World)
      → is_tracked res.key w ≡ true
      → is_tracked res.key (finish_entry local res b w).1 ≡ true
  finish_entry_tracked true w h = h
  finish_entry_tracked false w h = h

  or_true : (b : Bool) → (b || true) ≡ true
  or_true true = refl
  or_true false = refl

  delete_tracked : (w : World) → is_tracked res.key (set_store (delete res.key w.store) w) ≡ false
  unfolding delete
  delete_tracked w = ground (arith, lookup-erase res.key res.key w.store.entries)

  drop_entry_tracked :
      (t : Bool) (w : World)
      → is_tracked res.key w ≡ true
      → is_tracked res.key (drop_entry res (t || false) w) ≡ t
  drop_entry_tracked true w h = h
  drop_entry_tracked false w h = delete_tracked w

  error_file : (e : ServeError) → is_file (write_fetch_error e) ≡ false
  unfolding write_fetch_error
  error_file e = ground arith

  or_false : (b : Bool) → (b || false) ≡ b
  or_false true = refl
  or_false false = refl

  abbrev Registers : Response × World → Type 0
  Registers a = is_tracked res.key a.1 ≡ (tracked || is_file a.0)

  after_contact-Registers :
      (error : Option ServeError) (w : World)
      → is_tracked res.key w ≡ true
      → Registers (after_contact local res tracked false need error w)
  after_contact-Registers none w h = finish_entry_tracked need w h ∙ sym (or_true tracked)
  after_contact-Registers (some e) w h =
      drop_entry_tracked tracked w h
      ∙ sym (ap (λ b. tracked || b) (error_file e) ∙ or_false tracked)

  choose-Registers :
      (b : Bool) (w v : World) (error : Option ServeError)
      → is_tracked res.key w ≡ true
      → is_tracked res.key v ≡ true
      → Registers (
          if b
          then finish_entry local res need w
          else after_contact local res tracked false need error v)
  choose-Registers true w v error h k = finish_entry_tracked need w h ∙ sym (or_true tracked)
  choose-Registers false w v error h k = after_contact-Registers error v k

-- A request for an entry point that no policy protects registers its repository exactly if it is
-- served: a first contact that fails leaves no entry, and a repository that was tracked before stays.
pub serve_entry_point_tracked :
    (c : Site) (now : Time) (root req_path : Bytes) (res : Resource) (local : Bytes) (w : World)
    → is_protected c.conf res.kind ≡ false
    → let a = serve_entry_point c now root req_path res local w in
      is_tracked res.key a.1 ≡ (is_tracked res.key w || is_file a.0)
unfolding serve_entry_point mark_requested serve_unprotected
serve_entry_point_tracked c now root req_path res local w unprotected =
    let m = mark_requested res.kind res.key res.path res.root now w.store in
    let h : is_tracked res.key (set_store m.1 w) ≡ true =
      ground (arith, lookup-insert res.key res.key (m.0).0 w.store.entries) in
    rw unprotected (
      choose-Registers local res (is_tracked res.key w) _ (regular_file local w.tree)
        (set_store m.1 w) _ _ h h)
