-- ===== src/Runtime/Health/Turns.antt =====
-- Every turn of the loop keeps the watch running.
use cmf_watch_pro_2_os.Base.{
  if_true, if_false, either, ℕ, zero, suc, ◌≡◌, refl, ◌∙◌, sym, subst, inl, inr, Bool, true, false,
  List, [], ◌∷◌, Option, none, some, if◌then◌else◌, Bool-cases,
}
use cmf_watch_pro_2_os.Json.{Json}
use cmf_watch_pro_2_os.State.{WatchState}
use cmf_watch_pro_2_os.Actions.{Actions, poll_timeout}
use cmf_watch_pro_2_os.Sync.Snapshots.Candidate.{Fills}
use cmf_watch_pro_2_os.Cache.Record.{Layout}
use cmf_watch_pro_2_os.Input
use cmf_watch_pro_2_os.Input.{InputEvent, interrupts}
use cmf_watch_pro_2_os.Renderer.{
  Renderer, Point, RendererAction, release, TouchEvent, pressed, pressing, released, press_lost,
  short_clicked, refreshed, touch, release_tracked, reported, action_of,
}
use cmf_watch_pro_2_os.Renderer.Swipes.{OnDisplay, release-some}
use cmf_watch_pro_2_os.Transport.Link.{System}
use cmf_watch_pro_2_os.Transport.Connection
use cmf_watch_pro_2_os.Transport.Kept.{poll-Holds}
use cmf_watch_pro_2_os.Runtime.{Device, Board, now_ms}
use cmf_watch_pro_2_os.Runtime.Messages.{callbacks, with_action}
use cmf_watch_pro_2_os.Runtime.Loop.{
  on_input, take_input, timed_out, time_out, perform, touched, touch_all, timer_handler, sampled,
  sample, rest, turn, turns,
}
use cmf_watch_pro_2_os.Runtime.Health.{Idle, Running, Sending-Fills, At, refresh-At}
use cmf_watch_pro_2_os.Runtime.Health.Actions.{poll_timeout-Fills, poll_timeout-idle}
use cmf_watch_pro_2_os.Runtime.Health.Events.{callbacks-Keeps}
use cmf_watch_pro_2_os.Runtime.Health.Handling.{handle_action-At}

-- The point of an event is on the display.
abbrev pub Near : TouchEvent → Type 0
Near (pressed p) = OnDisplay p
Near (pressing p) = OnDisplay p
Near (released p) = OnDisplay p
Near (press_lost p) = OnDisplay p
Near short_clicked = Unit
Near refreshed = Unit

abbrev pub AllNear : List TouchEvent → Type 0
AllNear [] = Unit
AllNear (event ∷ events) = Near event × AllNear events

-- What a touch gives: it never overflows, and what it remembers is on the display.
abbrev Touched : Renderer → TouchEvent → Type 0
Touched r event =
    (r' : Renderer) × (action : Option RendererAction) × (touch r event ≡ some (r', action))
    × OnDisplay r'.swipe_start

release_tracked-some :
    (r : Renderer) (p : Point)
    → OnDisplay r.swipe_start
    → OnDisplay p
    → (r' : Renderer) × (action : Option RendererAction) × (release_tracked r p ≡ some (r', action))
      × OnDisplay r'.swipe_start
release_tracked-some r p h k = elim (Bool-cases r.swipe_tracking) [
  | inr b ↦ (r, none, if_false (release r p) (some (r, none)) b, h)
  | inl b ↦
      let (swipe, e, means) = release-some r p h k in
      let up = record r { swipe_last = p; swipe_tracking = false } in
      (up, reported r (action_of swipe), if_true (release r p) (some (r, none)) b ∙ e, h)
]

touch-some :
    (r : Renderer) (event : TouchEvent) → OnDisplay r.swipe_start → Near event → Touched r event
unfolding touch
touch-some r (pressed p) h k = (_, none, refl, k)
touch-some r (pressing p) h k = (
  (if r.swipe_tracking then record r { swipe_last = p } else r),
  none,
  refl,
  either (λ x. OnDisplay x.swipe_start) r.swipe_tracking (record r { swipe_last = p }) r h h,
)
touch-some r (released p) h k = release_tracked-some r p h k
touch-some r (press_lost p) h k = release_tracked-some r p h k
touch-some r short_clicked h k = (_, _, refl, h)
touch-some r refreshed h k = (_, _, refl, h)

module _ {W : Type 0} (board : Board W) (layout : Layout) where
  of_socket : (o : Option ℕ) (sys : System Device W) → At o sys → Running sys.link.socket_fd sys.app
  of_socket o sys (e, r) = subst (λ x. Running x sys.app) (sym e) r

  on_input-At :
      (o : Option ℕ) (event : InputEvent) (sys : System Device W)
      → At o sys
      → At o (on_input board layout event sys)
  unfolding on_input
  on_input-At o InputEvent.no_input sys h = h
  on_input-At o InputEvent.hardware_button sys h =
      handle_action-At board layout o RendererAction.next sys h
  on_input-At o InputEvent.activate sys h =
      handle_action-At board layout o RendererAction.activate sys h

  take_input-At :
      (o : Option ℕ) (sys : System Device W) → At o sys → At o (take_input board layout sys)
  unfolding take_input
  take_input-At o sys h =
      let (presses, w) = board.presses sys.world in
      let (event, pending) = Input.poll (interrupts presses sys.app.pending) in
      on_input-At o event (record sys { app = record (sys.app) { pending = pending }; world = w }) h

  timed_out-At :
      (o : Option ℕ) (out : Actions × WatchState × Bool) (sys : System Device W)
      → At o sys
      → Fills sys.app.state out.1
      → Idle o out.0.pending
      → At o (timed_out board layout out sys)
  unfolding timed_out
  timed_out-At o (actions, state, true) sys (at, (r, i)) f idle =
      refresh-At board o (with_action actions state sys) (at, (Sending-Fills sys.app o f r, idle))
  timed_out-At o (actions, state, false) sys (at, (r, i)) f idle =
      (at, (Sending-Fills sys.app o f r, idle))

  poll_timeout-Idle :
      (o : Option ℕ) (a : Actions) (s : WatchState) (t : ℕ)
      → Idle o a.pending
      → Idle o (poll_timeout a s t).0.pending
  poll_timeout-Idle none a s t i = poll_timeout-idle a s t i
  poll_timeout-Idle (some fd) a s t i = tt

  time_out-At : (o : Option ℕ) (sys : System Device W) → At o sys → At o (time_out board layout sys)
  unfolding time_out
  time_out-At o sys h =
      let (t, sys') = now_ms board sys in
      timed_out-At o (poll_timeout sys.app.actions sys.app.state t) sys' h
        (poll_timeout-Fills sys.app.actions sys.app.state t)
        (poll_timeout-Idle o sys.app.actions sys.app.state t h.1.1)

  perform-At :
      (o : Option ℕ) (action : Option RendererAction) (sys : System Device W)
      → At o sys
      → At o (perform board layout action sys)
  unfolding perform
  perform-At o none sys h = h
  perform-At o (some action) sys h = handle_action-At board layout o action sys h

  touch_all-At :
      (o : Option ℕ) (events : List TouchEvent) (sys : System Device W)
      → AllNear events
      → At o sys
      → At o (touch_all board layout events sys)
  unfolding touch_all touched
  touch_all-At o [] sys n h = h
  touch_all-At o (event ∷ events) sys (near, n) (at, ((h, p, c), i)) =
      let (r, action, e, k) = touch-some sys.app.renderer event h.near near in
      let sys' = record sys { app = record (sys.app) { renderer = r } } in
      subst (λ x. At o (touch_all board layout events (touched board layout x sys))) (sym e)
        (touch_all-At o events (perform board layout action sys') n (
          perform-At o action sys' (
            at,
            (
              (
                record {
                  safe = h.safe;
                  bounded = h.bounded;
                  serving = h.serving;
                  near = k;
                  sound = h.sound;
                },
                p,
                c,
              ),
              i,
            ),
          )))

  sample-At : (o : Option ℕ) (sys : System Device W) → At o sys → At o (sample board layout sys)
  unfolding sample
  sample-At o sys h =
      either (At o) sys.app.performance_sample_pending
        (sampled board layout (board.net.uptime sys.world) sys) sys h h

  -- The touches that the board reports are on its display.
  module _ (near : (w : W) → AllNear (board.timer w).0) where
    pub timer_handler-At :
        (o : Option ℕ) (sys : System Device W) → At o sys → At o (timer_handler board layout sys)
    unfolding timer_handler
    timer_handler-At o sys h =
        let (events, w) = board.timer sys.world in
        touch_all-At o events (record sys { world = w }) (near sys.world) h

    -- A turn of the loop keeps the watch running, with the socket that it leaves.
    pub turn-Running :
        (json : Json) (sys : System Device W)
        → Running sys.link.socket_fd sys.app
        → let out = turn board layout json sys in Running out.link.socket_fd out.app
    unfolding turn rest
    turn-Running json sys h =
        let polled = Connection.poll board.net (callbacks board layout json) json sys in
        let o = polled.link.socket_fd in
        let p : At o polled = (
          refl,
          poll-Holds board.net (callbacks board layout json) Running
              (callbacks-Keeps board layout json) json sys h,
        ) in
        let s1 = take_input board layout polled in
        let s2 = time_out board layout s1 in
        let s3 = timer_handler board layout s2 in
        of_socket o (sample board layout s3)
          (sample-At o s3 (timer_handler-At o s2 (time_out-At o s1 (take_input-At o polled p))))

    pub turns-Running :
        (json : Json) (n : ℕ) (sys : System Device W)
        → Running sys.link.socket_fd sys.app
        → let out = turns board layout json n sys in Running out.link.socket_fd out.app
    unfolding turns
    turns-Running json zero sys h = h
    turns-Running json (suc n) sys h =
        turns-Running json n (turn board layout json sys) (turn-Running json sys h)
