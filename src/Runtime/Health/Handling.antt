-- ===== src/Runtime/Health/Handling.antt =====
-- `handle_action` keeps the watch running.
use cmf_watch_pro_2_os.Base.{
  ℕ, ◌≡◌, refl, sym, subst, ◌∙◌, inl, inr, Bool, true, false, Option, none, some, codes, Result, ok,
  err, Errno, enotconn, Bool-cases, arith,
}
use cmf_watch_pro_2_os.State.{WatchState, Screen, notification_next, notification_previous}
use cmf_watch_pro_2_os.Navigation.{Navigation, page_before}
use cmf_watch_pro_2_os.Navigation.Bounds.{IsBounded}
use cmf_watch_pro_2_os.Navigation.Carousel.{
  next-current, previous-current, page_after, page_after-ne-count, page_before-ne-count,
}
use cmf_watch_pro_2_os.Actions.{Actions, begin_music, bind_message, fail}
use cmf_watch_pro_2_os.Sync.Mutations.Sound.{kept}
use cmf_watch_pro_2_os.Sync.Snapshots.Candidate.{Fills}
use cmf_watch_pro_2_os.Cache.Record.{Layout}
use cmf_watch_pro_2_os.Renderer.{RendererAction}
use cmf_watch_pro_2_os.Renderer.Faces.{on_screen}
use cmf_watch_pro_2_os.Transport.Link.{System}
use cmf_watch_pro_2_os.Transport.Sending.{send_music_action, music_over}
use cmf_watch_pro_2_os.Transport.Sending.Unchanged.{send_music_action-Same}
use cmf_watch_pro_2_os.Runtime.{Device, Board, now_ms}
use cmf_watch_pro_2_os.Runtime.Display.{refresh, render_current}
use cmf_watch_pro_2_os.Runtime.Storing.{store_sync}
use cmf_watch_pro_2_os.Runtime.Messages.{with_action}
use cmf_watch_pro_2_os.Runtime.Handling.{
  navigated, browsed, in_inbox, sent, begun, activate, handle_action,
}
use cmf_watch_pro_2_os.Runtime.Health.{
  Placed, Idle, Sending-Fills, At, SendingAt, SendingAt-Same, refresh-world, refresh-At,
  render_current-At, store_sync-At, store_application-At,
}
use cmf_watch_pro_2_os.Runtime.Health.Actions.{
  fail-Fills, pending-fail, begin_music-Fills, next-Fills, previous-Fills,
}

without_socket :
    {W : Type 0} (board : Board W) (o : Option ℕ) (playing : Bool) (sys : System Device W)
    → o ≡ none
    → (music_over board.net o playing sys).0 ≡ err enotconn
unfolding music_over
without_socket board none playing sys e = refl
without_socket board (some fd) playing sys e = absurd (cc)

refused :
    {W : Type 0} (board : Board W) (playing : Bool) (sys : System Device W)
    → sys.link.socket_fd ≡ none
    → (send_music_action board.net playing sys).0 ≡ err enotconn
unfolding send_music_action
refused board playing sys e = without_socket board sys.link.socket_fd playing sys e

inbox-Fills :
    (browse : WatchState → WatchState × Bool) (s : WatchState)
    → Fills s (browse s).0
    → Fills s (in_inbox browse s).0
inbox-Fills browse s f = elim (Bool-cases (on_screen s Screen.notifications)) [
  | inl b ↦ rw (b) f
  | inr b ↦ rw (b) (kept s)
]

settled : (o : Option ℕ) {b : Bool} → b ≡ false → Idle o b
settled none e = e
settled (some fd) e = tt

-- Nothing is begun while an action is pending.
begin_music-refused :
    (a : Actions) (s : WatchState) (now : ℕ)
    → (begin_music a s now).2 ≡ false
    → (begin_music a s now).0 ≡ a
unfolding begin_music
begin_music-refused a s now e = elim (Bool-cases a.pending) [
  | inl b ↦ simp (b) refl
  | inr b ↦ absurd (ground arith)
]

module _ {W : Type 0} (board : Board W) (layout : Layout) where
  -- A page has been turned.
  navigated-At :
      (o : Option ℕ) (back : Bool) (nav : Navigation) (screen : Screen) (sys : System Device W)
      → At o sys
      → IsBounded nav
      → Placed nav screen
      → At o (navigated board layout back (some (nav, true)) sys)
  unfolding navigated
  navigated-At o back nav screen sys (at, ((h, p, c), i)) v q =
      let moved = record sys { app = record (sys.app) { navigation = nav } } in
      store_application-At board layout o (render_current board back moved) (
        render_current-At board o back moved screen at
          (record {
            safe = h.safe;
            bounded = v;
            serving = h.serving;
            near = h.near;
            sound = h.sound;
          })
          q c i)

  browsed-At :
      (o : Option ℕ) (out : WatchState × Bool) (sys : System Device W)
      → At o sys
      → Fills sys.app.state out.0
      → At o (browsed board layout out sys)
  unfolding browsed
  browsed-At o (state, false) sys (at, (r, i)) f = (at, (Sending-Fills sys.app o f r, i))
  browsed-At o (state, true) sys (at, (r, i)) f =
      let moved = record sys { app = record (sys.app) { state = state } } in
      store_application-At board layout o (refresh board moved)
        (refresh-At board o moved (at, (Sending-Fills sys.app o f r, i)))

  -- The message is on its way, or the action is given up. Without a socket it is given up.
  sent-At :
      (o : Option ℕ) (out : Result Errno ℕ × System Device W)
      → SendingAt o out.1
      → (o ≡ none → out.0 ≡ err enotconn)
      → At o (sent board layout out)
  unfolding sent bind_message
  sent-At (some fd) (ok id, sys) (at, r) failed = (at, (r, tt))
  sent-At none (ok id, sys) h failed = let e : ok id ≡ err enotconn = failed refl in absurd (cc)
  sent-At o (err e, sys) (at, r) failed =
      let given_up =
        with_action (fail sys.app.actions sys.app.state (codes "HOST OFFLINE")).0
          (fail sys.app.actions sys.app.state (codes "HOST OFFLINE")).1 sys in
      refresh-At board o given_up (
        at,
        (
          Sending-Fills sys.app o (fail-Fills sys.app.actions sys.app.state (codes "HOST OFFLINE"))
              r,
          settled o (pending-fail sys.app.actions sys.app.state (codes "HOST OFFLINE")),
        ),
      )

  begun-At :
      (o : Option ℕ) (out : Actions × WatchState × Bool) (sys : System Device W)
      → At o sys
      → Fills sys.app.state out.1
      → (out.2 ≡ false → out.0 ≡ sys.app.actions)
      → At o (begun board layout out sys)
  unfolding begun
  begun-At o (actions, state, false) sys (at, (r, i)) f unchanged =
      (at, (Sending-Fills sys.app o f r, subst (λ a. Idle o a.pending) (sym (unchanged refl)) i))
  begun-At o (actions, state, true) sys (at, (r, i)) f unchanged =
      let tried = with_action actions state sys in
      let ready : SendingAt o tried = (at, Sending-Fills sys.app o f r) in
      refresh-world board
        (λ x. At o (
          store_sync board layout
            (sent board layout (send_music_action board.net x.app.state.music_playing x))))
        tried (ready.1.0.safe.browsable)
        (λ w.
          let x = record tried { world = w } in
          store_sync-At board layout o
            (sent board layout (send_music_action board.net x.app.state.music_playing x))
            (sent-At o (send_music_action board.net x.app.state.music_playing x)
              (SendingAt-Same o (send_music_action-Same board.net x.app.state.music_playing x)
                ready)
              (λ e. refused board x.app.state.music_playing x (at ∙ e))))

  activate-At : (o : Option ℕ) (sys : System Device W) → At o sys → At o (activate board layout sys)
  unfolding activate
  activate-At o sys h = elim (Bool-cases (on_screen sys.app.state Screen.music)) [
    | inr b ↦ rw (b) h
    | inl b ↦
        let (t, sys') = now_ms board sys in
        rw (b) (
          begun-At o (begin_music sys.app.actions sys.app.state t) sys' h
            (begin_music-Fills sys.app.actions sys.app.state t)
            (begin_music-refused sys.app.actions sys.app.state t))
  ]

  -- Whatever the action is, the watch goes on running, and its socket is the same.
  pub handle_action-At :
      (o : Option ℕ) (action : RendererAction) (sys : System Device W)
      → At o sys
      → At o (handle_action board layout action sys)
  unfolding handle_action
  handle_action-At o RendererAction.next sys (at, ((h, p, c), i)) =
      let (nav, e, q, d, v) = next-current h.bounded p.0 p.1 in
      subst (λ x. At o (navigated board layout false x sys)) (sym e)
        (navigated-At o false nav (page_after sys.app.state.active_screen) sys (at, ((h, p, c), i))
          v (q, page_after-ne-count sys.app.state.active_screen))
  handle_action-At o RendererAction.previous sys (at, ((h, p, c), i)) =
      let (nav, e, q, d, v) = previous-current h.bounded p.0 p.1 in
      subst (λ x. At o (navigated board layout true x sys)) (sym e)
        (navigated-At o true nav (page_before sys.app.state.active_screen) sys (at, ((h, p, c), i))
          v (q, page_before-ne-count sys.app.state.active_screen p.1))
  handle_action-At o RendererAction.next_item sys h =
      browsed-At o (in_inbox notification_next sys.app.state) sys h
        (inbox-Fills notification_next sys.app.state (next-Fills sys.app.state))
  handle_action-At o RendererAction.previous_item sys h =
      browsed-At o (in_inbox notification_previous sys.app.state) sys h
        (inbox-Fills notification_previous sys.app.state (previous-Fills sys.app.state))
  handle_action-At o RendererAction.activate sys h = activate-At o sys h
