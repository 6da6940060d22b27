-- ===== src/Runtime/Health/Start.antt =====
-- The watch is running when its loop begins.
use cmf_watch_pro_2_os.Base.{ℕ, ◌≡◌, refl, sym, subst, true, false, List, none, some, arith}
use cmf_watch_pro_2_os.Json.{Json}
use cmf_watch_pro_2_os.State
use cmf_watch_pro_2_os.State.{WatchState, Screen, ConnectionState, notification_capacity}
use cmf_watch_pro_2_os.Navigation
use cmf_watch_pro_2_os.Navigation.{Navigation, current, replace, top_index, store}
use cmf_watch_pro_2_os.Sync.Handle.Service.{init-IsServing}
use cmf_watch_pro_2_os.Sync.Snapshots.Candidate.{IsSafe}
use cmf_watch_pro_2_os.Cache.Record.{Layout}
use cmf_watch_pro_2_os.Cache.Storage.{load, Reading}
use cmf_watch_pro_2_os.State.Browse.{init-IsBrowsable, init-EntriesFit}
use cmf_watch_pro_2_os.Input
use cmf_watch_pro_2_os.Renderer
use cmf_watch_pro_2_os.Renderer.Swipes.{OnDisplay}
use cmf_watch_pro_2_os.Transport.Link.{System}
use cmf_watch_pro_2_os.Transport.Connection
use cmf_watch_pro_2_os.Transport.Kept.{init-Holds}
use cmf_watch_pro_2_os.Runtime.{Device, Board}
use cmf_watch_pro_2_os.Runtime.Display.{render_current}
use cmf_watch_pro_2_os.Runtime.Messages.{callbacks}
use cmf_watch_pro_2_os.Runtime.Loop.{
  initialised, blank_navigation, loaded, start, boot, turns, timer_handler,
}
use cmf_watch_pro_2_os.Runtime.Health.{Running, At, render_current-At}
use cmf_watch_pro_2_os.Runtime.Health.Events.{callbacks-Keeps}
use cmf_watch_pro_2_os.Runtime.Health.Turns.{AllNear, timer_handler-At, turns-Running}
use cmf_watch_pro_2_os.Runtime.Health.Loading.{Slotted, load-read, loaded-At}

origin-OnDisplay : OnDisplay (Renderer.blank.swipe_start)
origin-OnDisplay = record { right = omega arith; down = omega arith }

init-IsSafe : IsSafe (State.init)
init-IsSafe = record {
  condition = omega arith;
  title = omega arith;
  browsable = init-IsBrowsable;
  texts = init-EntriesFit;
}

module _ {W : Type 0} (board : Board W) (layout : Layout) where
  pub initialised-At :
      (w : W) → At none (initialised board layout (Navigation.init blank_navigation) w)
  unfolding Navigation.init
  initialised-At w = (
    refl,
    (
      (
        record {
          safe = init-IsSafe;
          bounded = record { slots = refl; used = omega arith; fits = omega arith };
          serving = init-IsServing;
          near = origin-OnDisplay;
          sound = refl;
        },
        (unfold current in refl, λ e. cc),
        (refl, refl),
      ),
      refl,
    ),
  )

  -- The touches that the board reports are on its display.
  module _ (near : (w : W) → AllNear (board.timer w).0) (json : Json) where
    start-Running :
        (sys : System Device W)
        → At none sys
        → let out = start board layout json sys in Running out.link.socket_fd out.app
    unfolding start
    start-Running sys h =
        let client = callbacks board layout json in
        let drawn = record sys {
          app = record (sys.app) { renderer = Renderer.init sys.app.renderer };
        } in
        let linked = Connection.init board.net client drawn in
        let o = linked.link.socket_fd in
        let ((k, p, c), i) : Running o linked.app =
          init-Holds board.net client Running (callbacks-Keeps board layout json) drawn
            (subst (λ x. Running x sys.app) (sym h.0) h.1) in
        let placed = record linked { world = (Input.init board.pins linked.world).1 } in
        let shown = render_current board false placed in
        let s : At o shown =
          render_current-At board o false placed placed.app.state.active_screen refl k p c i in
        let ready = record shown { app = record (shown.app) { runtime_ready = true } } in
        let (e, r) = timer_handler-At board layout near o ready s in
        subst (λ x. Running x (timer_handler board layout ready).app) (sym e) r

    -- Where the display is ready, the watch starts, and after any number of turns of its loop it is
    -- running, whatever the network, the clock and the buttons give: the mark that the model sets for
    -- an index out of its array, an overflow of a touch or a loop without end is not set; the
    -- condition, the music's title and the title and body of each notification have room for their
    -- terminators, and the notifications can be browsed; the navigation's stack is within its array,
    -- the synchronisation service in order and the start of the last touch on the display; the page
    -- of the state is that on top of the stack; and without a socket the watch is offline and awaits
    -- neither a snapshot nor an answer, while with one it is not offline. It is assumed that a record
    -- that is read from a file has its 4 notification slots, terminators in their texts, and no more
    -- notifications stored than counted; that the touches are on the display; and, as Network has it,
    -- that the uptime's milliseconds leave room in their int64_t for the intervals that are added.
    pub boot-Running :
        ((path : List ℕ) (w : W) (r : Reading)
          → board.files.read path w ≡ some r
          → Slotted r.candidate)
        → (w : W) (n : ℕ) → board.display_ready w ≡ true
        → (sys : System Device W) × (boot board layout json w ≡ some sys)
          × (let out = turns board layout json n sys in Running out.link.socket_fd out.app)
    unfolding boot
    boot-Running slotted w n ready =
        let result = load layout board.files (board.variable w) w in
        let fresh = initialised board layout (Navigation.init blank_navigation) w in
        let sys = start board layout json (loaded board layout result fresh) in
        let h = start-Running (loaded board layout result fresh) (
          loaded-At board layout result fresh
            (λ c e.
              let (path, r, read, is) = load-read layout board.files (board.variable w) w c e in
              subst Slotted is (slotted path w r read))
            (initialised-At w)) in
        (sys, rw (ready) refl, turns-Running board layout near json n sys h)
