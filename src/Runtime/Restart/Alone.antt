-- ===== src/Runtime/Restart/Alone.antt =====
-- A start without a host and without a user.
use cmf_watch_pro_2_os.Base.{
  ℕ, ◌≡◌, refl, sym, ap, subst, ◌∙◌, true, Option, none, some, [], Bool-cases, false, inl, inr, ltb,
}
use cmf_watch_pro_2_os.State.Browse.{IsBrowsable}
use cmf_watch_pro_2_os.Navigation.{current}
use cmf_watch_pro_2_os.Json.{Json}
use cmf_watch_pro_2_os.Cache.Record.{Layout}
use cmf_watch_pro_2_os.Transport.Link.{System, Client}
use cmf_watch_pro_2_os.Runtime.{Device, Board}
use cmf_watch_pro_2_os.Runtime.Loop.{start, timer_handler, touch_all}
use cmf_watch_pro_2_os.Runtime.Messages.{callbacks}
use cmf_watch_pro_2_os.Runtime.Display.{render_current}
use cmf_watch_pro_2_os.Runtime.View.{Shows, render_current-Drawn}
use cmf_watch_pro_2_os.Renderer.Picture.{Picture, renderer_screen}
use cmf_watch_pro_2_os.Runtime.Health.{At, render_current-page}
use cmf_watch_pro_2_os.Renderer
use cmf_watch_pro_2_os.Input
use cmf_watch_pro_2_os.Transport.Connection
use cmf_watch_pro_2_os.Transport.Connection.{connect_if_due, connect_over, try_connect, opened}

module _ {W : Type 0} (board : Board W) (layout : Layout) where
  opened-none :
      (client : Client Device W) (r : Option ℕ × W) (sys : System Device W)
      → r.0 ≡ none
      → (opened board.net client r sys).app ≡ sys.app
  unfolding opened
  opened-none client (none, w) sys e = refl
  opened-none client (some fd, w) sys e = absurd (cc)

  -- Nobody listens at the other end: no socket is given.
  module _ (no_host : (w : W) → (board.net.open_socket w).0 ≡ none) where
    connect_over-alone :
        (client : Client Device W) (o : Option ℕ) (sys : System Device W)
        → (connect_over board.net client o sys).app ≡ sys.app
    unfolding connect_over try_connect
    connect_over-alone client (some fd) sys = refl
    connect_over-alone client none sys =
        let w = (board.net.uptime sys.world).1 in
        let tried =
          opened-none client (board.net.open_socket w) (record sys { world = w }) (no_host w) in
        elim (Bool-cases (ltb (board.net.uptime sys.world).0 sys.link.next_connect_at)) [
          | inl b ↦ rw (b) refl
          | inr b ↦ rw (b) tried
        ]

    init-alone :
        (client : Client Device W) (sys : System Device W)
        → (Connection.init board.net client sys).app ≡ sys.app
    unfolding Connection.init connect_if_due
    init-alone client sys = connect_over-alone client sys.link.socket_fd _

    -- A start to which neither a host nor a user contributes leaves the state as it was loaded.
    pub start-state :
        (json : Json) (sys : System Device W)
        → ((w : W) → (board.timer w).0 ≡ [])
        → At none sys
        → (start board layout json sys).app.state ≡ sys.app.state
    unfolding start timer_handler touch_all
    start-state json sys untouched (at, h) =
        let client = callbacks board layout json in
        let first = record sys {
          app = record (sys.app) { renderer = Renderer.init sys.app.renderer };
        } in
        let linked = Connection.init board.net client first in
        let same : linked.app ≡ first.app = init-alone client first in
        let placed = record linked { world = (Input.init board.pins linked.world).1 } in
        let page = sys.app.state.active_screen in
        render_current-page board
          (λ x.
            (touch_all board layout (board.timer x.world).0 (record x {
              app = record (x.app) { runtime_ready = true };
              world = (board.timer x.world).1;
            })).app.state
            ≡ sys.app.state)
          false placed page
          (subst (λ d. IsBrowsable d.state.notifications) (sym same) h.0.0.safe.browsable)
          (ap (λ d. current d.navigation) same ∙ h.0.1.0)
          (λ w deadline.
            rw (untouched w) (ap (λ d. record (d.state) { active_screen = page }) same))

    -- The screen that such a start loads is the one of its state.
    pub start-drawn :
        (json : Json) (see : W → Picture) (sys : System Device W)
        → Shows board see
        → ((w : W) → (board.timer w).0 ≡ [])
        → At none sys
        → let out = start board layout json sys in
          renderer_screen out.app.state ≡ some (see out.world)
    unfolding start timer_handler touch_all
    start-drawn json see sys shows untouched (at, h) =
        let client = callbacks board layout json in
        let first = record sys {
          app = record (sys.app) { renderer = Renderer.init sys.app.renderer };
        } in
        let linked = Connection.init board.net client first in
        let same : linked.app ≡ first.app = init-alone client first in
        let placed = record linked { world = (Input.init board.pins linked.world).1 } in
        let shown = render_current board false placed in
        let sound : shown.app.faulty ≡ false =
          render_current-page board (λ x. x.app.faulty ≡ false) false placed
            sys.app.state.active_screen
            (subst (λ d. IsBrowsable d.state.notifications) (sym same) h.0.0.safe.browsable)
            (ap (λ d. current d.navigation) same ∙ h.0.1.0)
            (λ w deadline. ap (λ d. d.faulty) same ∙ h.0.0.sound) in
        subst
          (λ events.
            let ready = touch_all board layout events (record shown {
              app = record (shown.app) { runtime_ready = true };
              world = (board.timer shown.world).1;
            }) in
            renderer_screen ready.app.state ≡ some (see (board.blanking_off ready.world)))
          (sym (untouched shown.world))
          (render_current-Drawn board see shows false placed sound
            ∙ ap some
                (sym (shows.blanking_off (board.timer shown.world).1 ∙ shows.timer shown.world)))
