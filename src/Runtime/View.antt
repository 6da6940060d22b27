-- ===== src/Runtime/View.antt =====
-- What the display shows: the screen that was loaded last, and the functions that draw and store.
pub mod Changes
pub mod Callbacks
pub mod Actions
pub mod Turns
pub mod Shown
mod Tests
use cmf_watch_pro_2_os.Base.{
  ℕ, ◌≡◌, refl, sym, subst, ◌∙◌, inl, inr, Bool, true, false, List, Option, none, some, arith, not,
  ◌||◌, leb, ◌==◌, length, Bool-cases, Option-cases, if◌then◌else◌,
}
use cmf_watch_pro_2_os.State.{WatchState, Screen, set_screen}
use cmf_watch_pro_2_os.Navigation.{current}
use cmf_watch_pro_2_os.Cache.Record.{CacheRecord, Layout}
use cmf_watch_pro_2_os.Cache.Storage.{Files, cache_path, temporary, write_out, save}
use cmf_watch_pro_2_os.Renderer.Picture.{
  Picture, Loading, renderer_screen, animation_load, load_at_once,
}
use cmf_watch_pro_2_os.Transport.Link.{System}
use cmf_watch_pro_2_os.Transport.View.{Apart}
use cmf_watch_pro_2_os.Runtime.{Device, Board, now_over, now_ms}
use cmf_watch_pro_2_os.Runtime.Display.{
  drawn, refresh, refresh_if_ready, start_sample, render_page, render_current,
}
use cmf_watch_pro_2_os.Runtime.Storing.{
  save_record, store_sync_at, store_sync, store_application, store_stale,
}

-- What `see` sees of the world is the screen that was loaded last: no other call changes it.
pub record Shows {W : Type 0} (board : Board W) (see : W → Picture) : Type 0 where
  pub shown : (l : Loading) (p : Picture) (w : W) → see (board.show l p w) ≡ p
  pub network : Apart board.net see
  pub clock : (w : W) → see (board.clock w).1 ≡ see w
  pub timer : (w : W) → see (board.timer w).1 ≡ see w
  pub presses : (w : W) → see (board.presses w).1 ≡ see w
  pub blanking_off : (w : W) → see (board.blanking_off w) ≡ see w
  pub sleep : (w : W) → see (board.sleep w) ≡ see w
  pub open_write :
      (path : List ℕ) (w w' : W) → board.files.open_write path w ≡ some w' → see w' ≡ see w
  pub write : (path : List ℕ) (c : CacheRecord) (w : W) → see (board.files.write path c w).1 ≡ see w
  pub flush : (path : List ℕ) (w : W) → see (board.files.flush path w).1 ≡ see w
  pub close : (path : List ℕ) (w : W) → see (board.files.close path w).1 ≡ see w
  pub remove : (path : List ℕ) (w : W) → see (board.files.remove path w) ≡ see w
  pub rename : (from to : List ℕ) (w : W) → see (board.files.rename from to w).1 ≡ see w

-- What is seen is the screen of the state.
abbrev pub Drawn : Device → Picture → Type 0
Drawn d seen = d.faulty ≡ false → renderer_screen d.state ≡ some seen

-- While the watch awaits no snapshot, what is seen is the screen of its state.
abbrev pub Current : Device → Picture → Type 0
Current d seen = d.faulty ≡ false → d.sync.syncing ≡ false → renderer_screen d.state ≡ some seen

-- The same once the runtime is ready.
abbrev pub Live : Device → Picture → Type 0
Live d seen = (d.runtime_ready ≡ true) × Current d seen

module _ {W : Type 0} (board : Board W) (see : W → Picture) where
  abbrev pub CurrentAt : System Device W → Type 0
  CurrentAt sys = Current sys.app (see sys.world)

  abbrev pub DrawnAt : System Device W → Type 0
  DrawnAt sys = Drawn sys.app (see sys.world)

  abbrev pub LiveAt : System Device W → Type 0
  LiveAt sys = Live sys.app (see sys.world)

  -- The world has changed, but not what is seen of it.
  pub Live-seen : (d : Device) (w w' : W) → see w' ≡ see w → Live d (see w) → Live d (see w')
  Live-seen d w w' e h = subst (λ v. Live d v) (sym e) h

  module _ (shows : Shows board see) where
    drawn-Drawn :
        (loading : Loading) (o : Option Picture) (sys : System Device W)
        → renderer_screen sys.app.state ≡ o
        → DrawnAt (drawn board loading o sys)
    drawn-Drawn loading none sys e = λ sound. absurd (cc)
    drawn-Drawn loading (some picture) sys e = λ sound.
        subst (λ v. renderer_screen sys.app.state ≡ some v)
          (sym (shows.shown loading picture sys.world)) e

    drawn-ready :
        (loading : Loading) (o : Option Picture) (sys : System Device W)
        → (drawn board loading o sys).app.runtime_ready ≡ sys.app.runtime_ready
    drawn-ready loading none sys = refl
    drawn-ready loading (some picture) sys = refl

    pub refresh-Drawn : (sys : System Device W) → DrawnAt (refresh board sys)
    unfolding refresh
    refresh-Drawn sys = drawn-Drawn load_at_once (renderer_screen sys.app.state) sys refl

    pub refresh-Live :
        (sys : System Device W) → sys.app.runtime_ready ≡ true → LiveAt (refresh board sys)
    unfolding refresh
    refresh-Live sys ready = (
      drawn-ready load_at_once (renderer_screen sys.app.state) sys ∙ ready,
      λ sound settled. refresh-Drawn sys sound,
    )

    pub refresh_if_ready-Live :
        (sys : System Device W) → sys.app.runtime_ready ≡ true → LiveAt (refresh_if_ready board sys)
    unfolding refresh_if_ready
    refresh_if_ready-Live sys ready =
        subst (λ b. LiveAt (if b then refresh board sys else sys)) (sym ready)
          (refresh-Live sys ready)

    start_sample-Drawn : (sys : System Device W) → DrawnAt sys → DrawnAt (start_sample board sys)
    start_sample-Drawn sys h =
        let w1 = (board.net.uptime sys.world).1 in
        subst (λ v. Drawn sys.app v)
          (sym (shows.network.uptime w1 ∙ shows.network.uptime sys.world)) h

    render_page-Drawn :
        (back : Bool) (o : Option Screen) (sys : System Device W)
        → DrawnAt (render_page board back o sys)
    unfolding render_page
    render_page-Drawn back none sys = λ sound. absurd (cc)
    render_page-Drawn back (some screen) sys =
        let paged = record sys {
          app = record (sys.app) { state = set_screen sys.app.state screen };
        } in
        let o = renderer_screen paged.app.state in
        start_sample-Drawn (drawn board (animation_load back) o paged)
          (drawn-Drawn (animation_load back) o paged refl)

    pub render_current-Drawn :
        (back : Bool) (sys : System Device W) → DrawnAt (render_current board back sys)
    unfolding render_current
    render_current-Drawn back sys =
        render_page-Drawn back (current sys.app.navigation)
          (record sys { world = (board.net.uptime sys.world).1 })

    pub render_current-Current :
        (back : Bool) (sys : System Device W) → CurrentAt (render_current board back sys)
    render_current-Current back sys = λ sound settled. render_current-Drawn back sys sound

    render_page-ready :
        (back : Bool) (o : Option Screen) (sys : System Device W)
        → (render_page board back o sys).app.runtime_ready ≡ sys.app.runtime_ready
    unfolding render_page
    render_page-ready back none sys = refl
    render_page-ready back (some screen) sys =
        let paged = record sys {
          app = record (sys.app) { state = set_screen sys.app.state screen };
        } in
        drawn-ready (animation_load back) (renderer_screen paged.app.state) paged

    pub render_current-Live :
        (back : Bool) (sys : System Device W)
        → sys.app.runtime_ready ≡ true
        → LiveAt (render_current board back sys)
    unfolding render_current
    render_current-Live back sys ready = (
      render_page-ready back (current sys.app.navigation)
            (record sys { world = (board.net.uptime sys.world).1 })
          ∙ ready,
      render_current-Current back sys,
    )

    -- The clock.
    now_over-seen : (now : Option ℕ × W) → see (now_over board now).1 ≡ see now.1
    now_over-seen (some seconds, w) = refl
    now_over-seen (none, w) = shows.network.uptime w

    pub now_ms-seen : (sys : System Device W) → see (now_ms board sys).1.world ≡ see sys.world
    now_ms-seen sys = now_over-seen (board.clock sys.world) ∙ shows.clock sys.world

    module _ (layout : Layout) where
      write_out-seen :
          (path : List ℕ) (c : CacheRecord) (w : W)
          → see (write_out layout board.files path c w).1 ≡ see w
      unfolding write_out
      write_out-seen path c w =
          let tmp = temporary path in
          let (written, w1) = board.files.write tmp c w in
          let (flushed, w2) = board.files.flush tmp w1 in
          let (closed, w3) = board.files.close tmp w2 in
          let (renamed, w4) = board.files.rename tmp path w3 in
          let e = shows.close tmp w2 ∙ shows.flush tmp w1 ∙ shows.write tmp c w in
          elim (Bool-cases (not written || not flushed || not closed)) [
            | inl b ↦ rw (b) (shows.remove tmp w3 ∙ e)
            | inr b ↦ elim (Bool-cases (not renamed)) [
              | inl r ↦ rw (b, r) (shows.remove tmp w4 ∙ shows.rename tmp path w3 ∙ e)
              | inr r ↦ rw (b, r) (shows.rename tmp path w3 ∙ e)
            ]
          ]

      save-seen :
          (variable : Option (List ℕ)) (c : CacheRecord) (w : W)
          → see (save layout board.files variable c w).1 ≡ see w
      unfolding save
      save-seen variable c w = elim (Option-cases (cache_path variable)) [
        | inl e ↦ rw (e, save) refl
        | inr (path, e) ↦
            let tmp = temporary path in
            elim (Bool-cases (length tmp == 0 || leb 512 (length tmp))) [
              | inl b ↦ rw (e, b, save) refl
              | inr b ↦ elim (Option-cases (board.files.open_write tmp w)) [
                | inl o ↦ rw (e, b, o, save) refl
                | inr (w1, o) ↦
                    rw (e, b, o, save) (write_out-seen path c w1 ∙ shows.open_write tmp w w1 o)
              ]
            ]
      ]

      save_record-Live :
          (c : CacheRecord) (sys : System Device W)
          → LiveAt sys
          → LiveAt (save_record board layout c sys)
      unfolding save_record
      save_record-Live c sys h =
          subst (λ v. Live sys.app v) (sym (save-seen (board.variable sys.world) c sys.world)) h

      pub store_sync_at-Live :
          (t : ℕ) (sys : System Device W) → LiveAt sys → LiveAt (store_sync_at board layout t sys)
      unfolding store_sync_at
      store_sync_at-Live t sys h = save_record-Live _ sys h

      now-Live : (sys : System Device W) → LiveAt sys → LiveAt (now_ms board sys).1
      now-Live sys h = Live-seen sys.app sys.world (now_ms board sys).1.world (now_ms-seen sys) h

      -- Storing leaves what is drawn.
      save_record-Drawn :
          (c : CacheRecord) (sys : System Device W)
          → DrawnAt sys
          → DrawnAt (save_record board layout c sys)
      unfolding save_record
      save_record-Drawn c sys h =
          subst (λ v. Drawn sys.app v) (sym (save-seen (board.variable sys.world) c sys.world)) h

      now-Drawn : (sys : System Device W) → DrawnAt sys → DrawnAt (now_ms board sys).1
      now-Drawn sys h = subst (λ v. Drawn sys.app v) (sym (now_ms-seen sys)) h

      pub store_sync-Drawn :
          (sys : System Device W) → DrawnAt sys → DrawnAt (store_sync board layout sys)
      unfolding store_sync store_sync_at
      store_sync-Drawn sys h = save_record-Drawn _ (now_ms board sys).1 (now-Drawn sys h)

      pub store_application-Drawn :
          (sys : System Device W) → DrawnAt sys → DrawnAt (store_application board layout sys)
      unfolding store_application
      store_application-Drawn sys h = save_record-Drawn _ (now_ms board sys).1 (now-Drawn sys h)

      pub store_sync-Live :
          (sys : System Device W) → LiveAt sys → LiveAt (store_sync board layout sys)
      unfolding store_sync
      store_sync-Live sys h =
          store_sync_at-Live (now_ms board sys).0 (now_ms board sys).1 (now-Live sys h)

      pub store_application-Live :
          (sys : System Device W) → LiveAt sys → LiveAt (store_application board layout sys)
      unfolding store_application
      store_application-Live sys h = save_record-Live _ (now_ms board sys).1 (now-Live sys h)
