-- ===== src/Runtime/View/Turns.antt =====
-- The display is current after every turn of the loop.
use cmf_watch_pro_2_os.Base.{
  ℕ, zero, suc, refl, inl, inr, Bool, true, false, List, [], ◌∷◌, Option, none, some, Bool-cases,
}
use cmf_watch_pro_2_os.Json.{Json}
use cmf_watch_pro_2_os.State.{WatchState}
use cmf_watch_pro_2_os.Navigation
use cmf_watch_pro_2_os.Actions.{Actions, poll_timeout}
use cmf_watch_pro_2_os.Cache.Record.{Layout}
use cmf_watch_pro_2_os.Cache.Storage.{load}
use cmf_watch_pro_2_os.Input
use cmf_watch_pro_2_os.Input.{InputEvent, interrupts}
use cmf_watch_pro_2_os.Renderer
use cmf_watch_pro_2_os.Renderer.{Renderer, RendererAction, TouchEvent, touch}
use cmf_watch_pro_2_os.Renderer.Picture.{Picture}
use cmf_watch_pro_2_os.Transport.Link.{System}
use cmf_watch_pro_2_os.Transport.Connection
use cmf_watch_pro_2_os.Transport.View.Kept.{poll-Holds}
use cmf_watch_pro_2_os.Runtime.{Device, Board, now_ms}
use cmf_watch_pro_2_os.Runtime.Display.{render_current}
use cmf_watch_pro_2_os.Runtime.Messages.{callbacks, with_action}
use cmf_watch_pro_2_os.Runtime.Loop.{
  blank_navigation, on_input, take_input, timed_out, time_out, perform, touched, touch_all,
  timer_handler, sample, rest, initialised, loaded, start, boot, turn, turns,
}
use cmf_watch_pro_2_os.Runtime.View.{
  Shows, Live, LiveAt, Live-seen, now_ms-seen, refresh-Live, render_current-Current,
}
use cmf_watch_pro_2_os.Runtime.View.Changes.{Reported, poll_timeout-Reported}
use cmf_watch_pro_2_os.Runtime.View.Callbacks.{with_action-Live, callbacks-Keeps}
use cmf_watch_pro_2_os.Runtime.View.Actions.{handle_action-Live}

module _ {W : Type 0} (board : Board W) (see : W → Picture) (shows : Shows board see)
    (layout : Layout) where
  on_input-Live :
      (event : InputEvent) (sys : System Device W)
      → LiveAt board see sys
      → LiveAt board see (on_input board layout event sys)
  unfolding on_input
  on_input-Live InputEvent.no_input sys h = h
  on_input-Live InputEvent.hardware_button sys h =
      handle_action-Live board see shows layout RendererAction.next sys h
  on_input-Live InputEvent.activate sys h =
      handle_action-Live board see shows layout RendererAction.activate sys h

  take_input-Live :
      (sys : System Device W)
      → LiveAt board see sys
      → LiveAt board see (take_input board layout sys)
  unfolding take_input
  take_input-Live sys h =
      let (presses, w) = board.presses sys.world in
      let (event, pending) = Input.poll (interrupts presses sys.app.pending) in
      on_input-Live event (record sys { app = record (sys.app) { pending = pending }; world = w })
        (Live-seen board see sys.app sys.world w (shows.presses sys.world) h)

  timed_out-Live :
      (out : Actions × WatchState × Bool) (sys : System Device W)
      → Reported sys.app.state out.1 out.2
      → LiveAt board see sys
      → LiveAt board see (timed_out board layout out sys)
  unfolding timed_out
  timed_out-Live (actions, state, true) sys e h =
      refresh-Live board see shows (with_action actions state sys) h.0
  timed_out-Live (actions, state, false) sys e h = with_action-Live board see actions state sys e h

  time_out-Live :
      (sys : System Device W) → LiveAt board see sys → LiveAt board see (time_out board layout sys)
  unfolding time_out
  time_out-Live sys h =
      let (t, sys') = now_ms board sys in
      timed_out-Live (poll_timeout sys.app.actions sys.app.state t) sys'
        (poll_timeout-Reported sys.app.actions sys.app.state t)
        (Live-seen board see sys.app sys.world sys'.world (now_ms-seen board see shows sys) h)

  perform-Live :
      (action : Option RendererAction) (sys : System Device W)
      → LiveAt board see sys
      → LiveAt board see (perform board layout action sys)
  unfolding perform
  perform-Live none sys h = h
  perform-Live (some action) sys h = handle_action-Live board see shows layout action sys h

  touched-Live :
      (out : Option (Renderer × Option RendererAction)) (sys : System Device W)
      → LiveAt board see sys
      → LiveAt board see (touched board layout out sys)
  unfolding touched
  touched-Live none sys h = (h.0, λ sound. absurd (cc))
  touched-Live (some (renderer, action)) sys h =
      perform-Live action (record sys { app = record (sys.app) { renderer = renderer } }) h

  touch_all-Live :
      (events : List TouchEvent) (sys : System Device W)
      → LiveAt board see sys
      → LiveAt board see (touch_all board layout events sys)
  unfolding touch_all
  touch_all-Live [] sys h = h
  touch_all-Live (event ∷ events) sys h =
      let out = touch sys.app.renderer event in
      touch_all-Live events (touched board layout out sys) (touched-Live out sys h)

  timer_handler-Live :
      (sys : System Device W)
      → LiveAt board see sys
      → LiveAt board see (timer_handler board layout sys)
  unfolding timer_handler
  timer_handler-Live sys h =
      let (events, w) = board.timer sys.world in
      touch_all-Live events (record sys { world = w })
        (Live-seen board see sys.app sys.world w (shows.timer sys.world) h)

  sample-Live :
      (sys : System Device W) → LiveAt board see sys → LiveAt board see (sample board layout sys)
  unfolding sample
  sample-Live sys h = elim (Bool-cases sys.app.performance_sample_pending) [
    | inr b ↦ rw (b) h
    | inl b ↦ rw (b) (
        Live-seen board see sys.app sys.world (board.net.uptime sys.world).1
          (shows.network.uptime sys.world) h)
  ]

  module _ (json : Json) where
    turn-Live :
        (sys : System Device W)
        → LiveAt board see sys
        → LiveAt board see (turn board layout json sys)
    unfolding turn rest
    turn-Live sys h =
        let polled = Connection.poll board.net (callbacks board layout json) json sys in
        let taken = take_input board layout polled in
        let timed = time_out board layout taken in
        let handled = timer_handler board layout timed in
        let sampled = sample board layout handled in
        Live-seen board see sampled.app sampled.world (board.sleep sampled.world)
          (shows.sleep sampled.world)
          (sample-Live handled (
            timer_handler-Live timed (
              time_out-Live taken (
                take_input-Live polled (
                  poll-Holds board.net (callbacks board layout json) see Live shows.network
                    (callbacks-Keeps board see shows layout json) json sys h)))))

    pub turns-Live :
        (n : ℕ) (sys : System Device W)
        → LiveAt board see sys
        → LiveAt board see (turns board layout json n sys)
    unfolding turns
    turns-Live zero sys h = h
    turns-Live (suc n) sys h = turns-Live n (turn board layout json sys) (turn-Live sys h)

    start-Live : (sys : System Device W) → LiveAt board see (start board layout json sys)
    unfolding start
    start-Live sys =
        let linked =
          Connection.init board.net (callbacks board layout json)
            (record sys { app = record (sys.app) { renderer = Renderer.init sys.app.renderer } }) in
        let placed = record linked { world = (Input.init board.pins linked.world).1 } in
        let shown = render_current board false placed in
        let ready = record shown { app = record (shown.app) { runtime_ready = true } } in
        let handled = timer_handler board layout ready in
        Live-seen board see handled.app handled.world (board.blanking_off handled.world)
          (shows.blanking_off handled.world)
          (timer_handler-Live ready (refl, render_current-Current board see shows false placed))

    abbrev pub LiveIf : Option (System Device W) → Type 0
    LiveIf none = Unit
    LiveIf (some sys) = LiveAt board see sys

    pub boot-Live : (w : W) → LiveIf (boot board layout json w)
    unfolding boot
    boot-Live w = elim (Bool-cases (board.display_ready w)) [
      | inr b ↦ rw (b, boot) tt
      | inl b ↦
          let sys = initialised board layout (Navigation.init blank_navigation) w in
          let result = load layout board.files (board.variable w) w in
          rw (b, boot) (start-Live (loaded board layout result sys))
    ]
