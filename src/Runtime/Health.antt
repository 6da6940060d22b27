-- ===== src/Runtime/Health.antt =====
-- What the runtime keeps true of the watch, and the functions that draw and store.
pub mod Actions
pub mod Messages
pub mod Events
pub mod Handling
pub mod Loading
pub mod Start
pub mod Turns
pub mod Shown
use cmf_watch_pro_2_os.Base.{
  ℕ, ◌+◌, ◌^◌, ◌<◌, ◌≡◌, ◌≢◌, refl, sym, ap, subst, ◌∙◌, inl, inr, Bool, true, false, List, Option,
  none, some, arith, length, Bool-cases, if◌then◌else◌,
}
use cmf_watch_pro_2_os.State.{WatchState, Screen, ConnectionState, set_screen}
use cmf_watch_pro_2_os.State.Browse.{IsBrowsable}
use cmf_watch_pro_2_os.Navigation.{Navigation, current}
use cmf_watch_pro_2_os.Navigation.Bounds.{IsBounded}
use cmf_watch_pro_2_os.Sync.Buffer.{Sync}
use cmf_watch_pro_2_os.Sync.Handle.Service.{IsServing}
use cmf_watch_pro_2_os.Sync.Snapshots.Candidate.{IsSafe, Fills, watch_owned}
use cmf_watch_pro_2_os.Cache.Record.{CacheRecord, Layout}
use cmf_watch_pro_2_os.Renderer.{Point}
use cmf_watch_pro_2_os.Renderer.Swipes.{OnDisplay}
use cmf_watch_pro_2_os.Renderer.Drawn.{renderer_screen-some}
use cmf_watch_pro_2_os.Renderer.Picture.{Picture, renderer_screen, load_at_once, animation_load}
use cmf_watch_pro_2_os.Transport.Link.{System}
use cmf_watch_pro_2_os.Transport.Sending.Unchanged.{Same}
use cmf_watch_pro_2_os.Runtime.{Device, Board, now_ms}
use cmf_watch_pro_2_os.Runtime.Display.{
  drawn, refresh, refresh_if_ready, render_page, render_current, start_sample,
}
use cmf_watch_pro_2_os.Runtime.Storing.{
  save_record, store_sync_at, store_sync, store_application, store_stale,
}

-- The components' own invariants, and no fault so far.
pub record Healthy (state : WatchState) (navigation : Navigation) (sync : Sync) (touched : Point)
    (faulty : Bool) : Type 0 where
  pub safe : IsSafe state
  pub bounded : IsBounded navigation
  pub serving : IsServing sync
  pub near : OnDisplay touched
  pub sound : faulty ≡ false

-- The state's page is the one on the top of the navigation's stack.
abbrev pub Placed : Navigation → Screen → Type 0
Placed navigation screen = (current navigation ≡ some screen) × (screen ≢ Screen.count)

-- What the state says of the connection agrees with the socket. Without one the watch is offline and
-- awaits neither a snapshot nor, in the stronger form, the answer to an action.
abbrev pub Connected : Option ℕ → ConnectionState → Bool → Type 0
Connected none connection syncing = (connection ≡ ConnectionState.offline) × (syncing ≡ false)
Connected (some fd) connection syncing = connection ≢ ConnectionState.offline

abbrev pub Idle : Option ℕ → Bool → Type 0
Idle none pending = pending ≡ false
Idle (some fd) pending = Unit

-- While an action is being sent, all but the last holds.
abbrev pub Sending : Option ℕ → Device → Type 0
Sending o d =
    Healthy d.state d.navigation d.sync d.renderer.swipe_start d.faulty
    × Placed d.navigation d.state.active_screen
    × Connected o d.state.connection d.sync.syncing

abbrev pub Running : Option ℕ → Device → Type 0
Running o d = Sending o d × Idle o d.actions.pending

module _ {W : Type 0} where
  -- The socket is `o`, and the watch is running with it.
  abbrev pub At : Option ℕ → System Device W → Type 0
  At o sys = (sys.link.socket_fd ≡ o) × Running o sys.app

  abbrev pub SendingAt : Option ℕ → System Device W → Type 0
  SendingAt o sys = (sys.link.socket_fd ≡ o) × Sending o sys.app

  pub At-Same : {sys out : System Device W} (o : Option ℕ) → Same sys out → At o sys → At o out
  At-Same {sys} {out} o p (e, r) = (p.socket_fd ∙ e, subst (λ d. Running o d) (sym p.app) r)

  pub SendingAt-Same :
      {sys out : System Device W} (o : Option ℕ) → Same sys out → SendingAt o sys → SendingAt o out
  SendingAt-Same {sys} {out} o p (e, r) = (p.socket_fd ∙ e, subst (λ d. Sending o d) (sym p.app) r)

-- A state in which only what the host owns has changed.
pub Healthy-Fills :
    {s s' : WatchState} {nav : Navigation} {sync : Sync} {p : Point} {b : Bool}
    → Fills s s'
    → Healthy s nav sync p b
    → Healthy s' nav sync p b
Healthy-Fills f h = record {
  safe = f.safe h.safe;
  bounded = h.bounded;
  serving = h.serving;
  near = h.near;
  sound = h.sound;
}

pub screen-Fills : {s s' : WatchState} → Fills s s' → s'.active_screen ≡ s.active_screen
screen-Fills f = ap (λ x. x.0) f.owned

pub connection-Fills : {s s' : WatchState} → Fills s s' → s'.connection ≡ s.connection
connection-Fills f = ap (λ x. x.1) f.owned

pub Sending-Fills :
    (d : Device) {s' : WatchState} (o : Option ℕ)
    → Fills d.state s'
    → Sending o d
    → Sending o (record d { state = s' })
Sending-Fills d {s'} o f (h, p, c) = (
  Healthy-Fills f h,
  subst (λ x. Placed d.navigation x) (sym (screen-Fills f)) p,
  subst (λ x. Connected o x d.sync.syncing) (sym (connection-Fills f)) c,
)

module _ {W : Type 0} (board : Board W) where
  -- Drawing a safe state changes nothing but the world.
  pub refresh-world :
      (P : System Device W → Type 0) (sys : System Device W)
      → IsBrowsable sys.app.state.notifications
      → ((w : W) → P (record sys { world = w }))
      → P (refresh board sys)
  unfolding refresh
  refresh-world P sys v h =
      let (picture, e) = renderer_screen-some sys.app.state v in
      subst (λ x. P (drawn board load_at_once x sys)) (sym e)
        (h (board.show load_at_once picture sys.world))

  pub refresh-At : (o : Option ℕ) (sys : System Device W) → At o sys → At o (refresh board sys)
  refresh-At o sys h = refresh-world (At o) sys h.1.0.0.safe.browsable (λ w. h)

  pub refresh_if_ready-At :
      (o : Option ℕ) (sys : System Device W) → At o sys → At o (refresh_if_ready board sys)
  unfolding refresh_if_ready
  refresh_if_ready-At o sys h = elim (Bool-cases sys.app.runtime_ready) [
    | inl b ↦ subst (λ x. At o (if x then refresh board sys else sys)) (sym b) (refresh-At o sys h)
    | inr b ↦ subst (λ x. At o (if x then refresh board sys else sys)) (sym b) h
  ]

  -- The deadline of a sample stays in its int64_t.
  start_sample-fits :
      (sys : System Device W) → (start_sample board sys).app.performance_sample_deadline < 2 ^ 63
  start_sample-fits sys = omega (arith, board.net.uptime_bounded (board.net.uptime sys.world).1)

  -- The page that the navigation has turned to is shown, and a sample of the animation begins.
  pub render_current-page :
      (P : System Device W → Type 0) (back : Bool) (sys : System Device W) (screen : Screen)
      → IsBrowsable sys.app.state.notifications
      → current sys.app.navigation ≡ some screen
      → ((w : W) (deadline : ℕ)
          → P (record sys {
            app = record (sys.app) {
              state = record (sys.app.state) { active_screen = screen };
              performance_start_frames = sys.app.renderer.rendered_frames;
              performance_sample_deadline = deadline;
              performance_sample_pending = true;
            };
            world = w;
          }))
      → P (render_current board back sys)
  unfolding render_current render_page set_screen
  render_current-page P back sys screen v p h =
      let s' = record (sys.app.state) { active_screen = screen } in
      let started = record sys { world = (board.net.uptime sys.world).1 } in
      let paged = record started { app = record (sys.app) { state = s' } } in
      let (picture, e) = renderer_screen-some s' v in
      subst (λ x. P (render_page board back x started)) (sym p)
        (subst (λ x. P (start_sample board (drawn board (animation_load back) x paged))) (sym e)
          (h (start_sample board (drawn board (animation_load back) (some picture) paged)).world
            (start_sample board (
              drawn board (animation_load back) (some picture)
                paged)).app.performance_sample_deadline))

  pub render_current-At :
      (o : Option ℕ) (back : Bool) (sys : System Device W) (screen : Screen)
      → sys.link.socket_fd ≡ o
      → Healthy sys.app.state sys.app.navigation sys.app.sync sys.app.renderer.swipe_start
          sys.app.faulty
      → Placed sys.app.navigation screen
      → Connected o sys.app.state.connection sys.app.sync.syncing
      → Idle o sys.app.actions.pending
      → At o (render_current board back sys)
  render_current-At o back sys screen at h p c i =
      let h' : Healthy (record (sys.app.state) { active_screen = screen }) sys.app.navigation
          sys.app.sync sys.app.renderer.swipe_start sys.app.faulty =
        record {
          safe = record {
            condition = h.safe.condition;
            title = h.safe.title;
            browsable = h.safe.browsable;
            texts = h.safe.texts;
          };
          bounded = h.bounded;
          serving = h.serving;
          near = h.near;
          sound = h.sound;
        } in
      render_current-page (At o) back sys screen h.safe.browsable p.0
        (λ w deadline. (at, ((h', p, c), i)))

  module _ (layout : Layout) where
    pub store_sync_at-At :
        (o : Option ℕ) (t : ℕ) (sys : System Device W)
        → At o sys
        → At o (store_sync_at board layout t sys)
    unfolding store_sync_at save_record
    store_sync_at-At o t sys h = h

    pub store_sync-At :
        (o : Option ℕ) (sys : System Device W) → At o sys → At o (store_sync board layout sys)
    unfolding store_sync store_sync_at save_record
    store_sync-At o sys h = h

    pub store_application-At :
        (o : Option ℕ) (sys : System Device W)
        → At o sys
        → At o (store_application board layout sys)
    unfolding store_application save_record
    store_application-At o sys h = h

    pub store_stale-At :
        (o : Option ℕ) (sys : System Device W) → At o sys → At o (store_stale board layout sys)
    unfolding store_stale save_record
    store_stale-At o sys h = h
