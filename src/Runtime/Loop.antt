-- ===== src/Runtime/Loop.antt =====
-- `watch_runtime_run` of watch_runtime.c: the start, and one turn of its endless loop.
use cmf_watch_pro_2_os.Base.{
  ℕ, zero, suc, Bool, true, false, List, [], ◌∷◌, Option, none, some, leb, if◌then◌else◌, replicate,
  Result, ok, err, Errno,
}
use cmf_watch_pro_2_os.Base.Int.{ℤ, negsuc}
use cmf_watch_pro_2_os.Json.{Json}
use cmf_watch_pro_2_os.State
use cmf_watch_pro_2_os.State.{WatchState, Screen}
use cmf_watch_pro_2_os.Navigation
use cmf_watch_pro_2_os.Navigation.{Navigation, navigation_depth}
use cmf_watch_pro_2_os.Actions
use cmf_watch_pro_2_os.Actions.{Actions, poll_timeout}
use cmf_watch_pro_2_os.Sync.Handle
use cmf_watch_pro_2_os.Cache.Record
use cmf_watch_pro_2_os.Cache.Record.{CacheRecord, Layout}
use cmf_watch_pro_2_os.Cache.Operations.{restore}
use cmf_watch_pro_2_os.Cache.Storage.{load}
use cmf_watch_pro_2_os.Platform
use cmf_watch_pro_2_os.Input
use cmf_watch_pro_2_os.Input.{InputEvent, Press, Pending, interrupts}
use cmf_watch_pro_2_os.Renderer
use cmf_watch_pro_2_os.Renderer.{Renderer, RendererAction, TouchEvent, touch}
use cmf_watch_pro_2_os.Transport.Link
use cmf_watch_pro_2_os.Transport.Link.{System}
use cmf_watch_pro_2_os.Transport.Connection
use cmf_watch_pro_2_os.Runtime.{Device, Board, faulted, now_ms}
use cmf_watch_pro_2_os.Runtime.Display.{refresh, render_current}
use cmf_watch_pro_2_os.Runtime.Messages.{callbacks, with_action}
use cmf_watch_pro_2_os.Runtime.Handling.{handle_action}

-- The arrays of static variables are zero.
abbrev pub blank_navigation : Navigation
blank_navigation = record { stack = replicate navigation_depth Screen.home; depth = 0 }

module _ {W : Type 0} (board : Board W) (layout : Layout) where
  -- What `watch_input_poll` reports.
  unfoldable pub on_input : InputEvent → System Device W → System Device W
  unfolding handle_action
  on_input InputEvent.no_input sys = sys
  on_input InputEvent.hardware_button sys = handle_action board layout RendererAction.next sys
  on_input InputEvent.activate sys = handle_action board layout RendererAction.activate sys

  -- The interrupts that came since the last turn, and `watch_input_poll`.
  unfoldable pub take_input : System Device W → System Device W
  unfolding on_input interrupts Input.poll
  take_input sys =
      let (presses, w) = board.presses sys.world in
      let (event, pending) = Input.poll (interrupts presses sys.app.pending) in
      on_input event (record sys { app = record (sys.app) { pending = pending }; world = w })

  -- What `watch_actions_poll_timeout` reports.
  unfoldable pub timed_out : Actions × WatchState × Bool → System Device W → System Device W
  timed_out (actions, state, true) sys = refresh board (with_action actions state sys)
  timed_out (actions, state, false) sys = with_action actions state sys

  unfoldable pub time_out : System Device W → System Device W
  unfolding timed_out
  time_out sys =
      let (t, sys') = now_ms board sys in
      timed_out (poll_timeout sys'.app.actions sys'.app.state t) sys'

  -- The renderer's handler, where it is called.
  unfoldable pub perform : Option RendererAction → System Device W → System Device W
  unfolding handle_action
  perform none sys = sys
  perform (some action) sys = handle_action board layout action sys

  -- What a touch does.
  unfoldable pub touched :
      Option (Renderer × Option RendererAction) → System Device W → System Device W
  unfolding perform
  touched none sys = faulted sys
  touched (some (renderer, action)) sys =
      perform action (record sys { app = record (sys.app) { renderer = renderer } })

  unfoldable pub touch_all : List TouchEvent → System Device W → System Device W
  unfolding touched touch
  touch_all [] sys = sys
  touch_all (event ∷ events) sys = touch_all events (touched (touch sys.app.renderer event) sys)

  -- `lv_timer_handler()`
  unfoldable pub timer_handler : System Device W → System Device W
  unfolding touch_all
  timer_handler sys =
      let (events, w) = board.timer sys.world in touch_all events (record sys { world = w })

  -- The end of a sample of the animation, at the time `now`.
  abbrev pub sampled : ℕ × W → System Device W → System Device W
  sampled (now, w) sys =
      let over = leb sys.app.performance_sample_deadline now in
      record sys {
        app = record (sys.app) {
          performance_sample_pending = if over then false else sys.app.performance_sample_pending;
        };
        world = w;
      }

  unfoldable pub sample : System Device W → System Device W
  sample sys =
      if sys.app.performance_sample_pending then sampled (board.net.uptime sys.world) sys else sys

  unfoldable pub rest : System Device W → System Device W
  rest sys = record sys { world = board.sleep sys.world }

  -- The variables after the five `init` calls, and what `navigation_init` gives.
  abbrev pub initialised : Option Navigation → W → System Device W
  initialised navigation w =
      let device : Device = record {
        state = State.init;
        navigation = blank_navigation;
        sync = Handle.init;
        cache = Record.init layout;
        actions = Actions.init;
        renderer = Renderer.blank;
        pending = record { button = false; activate = false };
        runtime_ready = false;
        performance_sample_pending = false;
        performance_sample_deadline = 0;
        performance_start_frames = 0;
        faulty = false;
      } in
      elim navigation [
        | none ↦ faulted (record { link = Link.initial; app = device; world = w })
        | some navigation ↦ record {
          link = Link.initial;
          app = record device { navigation = navigation };
          world = w;
        }
      ]

  -- What `navigation_replace` gives.
  abbrev pub replaced : Option Navigation → System Device W → System Device W
  replaced none sys = faulted sys
  replaced (some navigation) sys = record sys { app = record (sys.app) { navigation = navigation } }

  -- What `watch_cache_restore` reports.
  unfoldable pub restored : WatchState × Bool → System Device W → System Device W
  unfolding Navigation.replace
  restored (state, false) sys = record sys { app = record (sys.app) { state = state } }
  restored (state, true) sys =
      replaced (Navigation.replace sys.app.navigation state.active_screen)
        (record sys { app = record (sys.app) { state = state } })

  -- What `watch_cache_storage_load` returns.
  unfoldable pub loaded : Result Errno CacheRecord → System Device W → System Device W
  unfolding restored restore
  loaded (ok cache) sys =
      restored (restore layout cache sys.app.state)
        (record sys { app = record (sys.app) { cache = cache } })
  loaded (err Errno.ebadmsg) sys = record sys {
    app = record (sys.app) { cache = Record.init layout };
  }
  loaded (err _) sys = sys

  module _ (json : Json) where
    -- From `renderer_init` to the loop, with the cache loaded.
    unfoldable pub start : System Device W → System Device W
    unfolding Connection.init Input.init render_current timer_handler
    start sys =
        let linked =
          Connection.init board.net (callbacks board layout json)
            (record sys { app = record (sys.app) { renderer = Renderer.init sys.app.renderer } }) in
        let shown =
          render_current board false
            (record linked { world = (Input.init board.pins linked.world).1 }) in
        let ready =
          timer_handler (record shown { app = record (shown.app) { runtime_ready = true } }) in
        record ready { world = board.blanking_off ready.world }

    -- `none` where the function returns -ENODEV.
    unfoldable pub boot : W → Option (System Device W)
    unfolding start loaded load Navigation.init
    boot w = elim Platform.init [
      | err e ↦ none
      | ok x ↦
          if board.display_ready w
          then some (
              start (
                let sys = initialised (Navigation.init blank_navigation) w in
                loaded (load layout board.files (board.variable w) w) sys))
          else none
    ]

    -- The loop's body.
    unfoldable pub turn : System Device W → System Device W
    unfolding Connection.poll take_input time_out timer_handler sample rest
    turn sys = rest (
        sample (
          timer_handler (
            time_out
              (take_input (Connection.poll board.net (callbacks board layout json) json sys)))))

    unfoldable pub turns : ℕ → System Device W → System Device W
    unfolding turn
    turns zero sys = sys
    turns (suc n) sys = turns n (turn sys)

    -- What `main` returns: -ENODEV where the watch does not start; where it does, the loop never ends.
    unfoldable pub main : W → Option ℤ
    unfolding boot
    main w = elim (boot w) [ none ↦ some (negsuc 18) | some sys ↦ none ]
