-- ===== src/Runtime/Health/Shown.antt =====
-- What an action does, as the user sees it.
use cmf_watch_pro_2_os.Base.{
  if_false, ℕ, ◌≡◌, ap, ◌∙◌, refl, sym, subst, Bool, true, false, Option, none, some, codes, err,
  enotconn, if◌then◌else◌,
}
use cmf_watch_pro_2_os.State.{WatchState, Screen, to_nat}
use cmf_watch_pro_2_os.State.Browse.{IsBrowsable}
use cmf_watch_pro_2_os.Renderer.Faces.{on_screen}
use cmf_watch_pro_2_os.Navigation.{Navigation, current}
use cmf_watch_pro_2_os.Navigation.Carousel.{
  next-current, previous-current, page_after, page_ahead, page_before-page_ahead,
}
use cmf_watch_pro_2_os.Actions.{Actions, begin_music, fail, set_feedback}
use cmf_watch_pro_2_os.Cache.Record.{Layout, seal}
use cmf_watch_pro_2_os.Cache.Operations.{capture_application, capture_sync}
use cmf_watch_pro_2_os.Renderer.{RendererAction}
use cmf_watch_pro_2_os.Transport.Link.{System}
use cmf_watch_pro_2_os.Transport.Sending.{send_music_action, music_over}
use cmf_watch_pro_2_os.Runtime.{Device, Board, now_ms}
use cmf_watch_pro_2_os.Runtime.Storing.{store_sync, store_sync_at, store_application, save_record}
use cmf_watch_pro_2_os.Runtime.Messages.{with_action}
use cmf_watch_pro_2_os.Runtime.Handling.{navigated, sent, begun, activate, handle_action}
use cmf_watch_pro_2_os.Runtime.Display.{render_current}
use cmf_watch_pro_2_os.Renderer.Picture.{Picture, renderer_screen}
use cmf_watch_pro_2_os.Runtime.View.{
  Shows, DrawnAt, refresh-Drawn, render_current-Drawn, store_sync-Drawn, store_application-Drawn,
}
use cmf_watch_pro_2_os.Runtime.Health.Handling.{handle_action-At}
use cmf_watch_pro_2_os.Runtime.Health.{Running, refresh-world, render_current-page}

-- A page is on the watch, on its navigation's stack and in its cache.
abbrev pub Turned : Screen → Device → Type 0
Turned screen d =
    (d.state.active_screen ≡ screen)
    × (current d.navigation ≡ some screen)
    × (d.cache.active_screen ≡ to_nat screen)

module _ {W : Type 0} (board : Board W) (layout : Layout) where
  navigated-Turned :
      (back : Bool) (sys : System Device W) (nav : Navigation) (screen : Screen) (o : Option ℕ)
      → Running o sys.app
      → current nav ≡ some screen
      → Turned screen (navigated board layout back (some (nav, true)) sys).app
  unfolding navigated store_application save_record capture_application seal
  navigated-Turned back sys nav screen o ((h, p, c), i) e =
      render_current-page board (λ x. Turned screen (store_application board layout x).app) back
        (record sys { app = record (sys.app) { navigation = nav } }) screen h.safe.browsable e
        (λ w deadline. (refl, e, refl))

  module _ (see : W → Picture) (shows : Shows board see) where
    -- The page is on the display too.
    abbrev pub TurnedAt : Screen → System Device W → Type 0
    TurnedAt screen sys =
        Turned screen sys.app × (renderer_screen sys.app.state ≡ some (see sys.world))

    navigated-Drawn :
        (back : Bool) (sys : System Device W) (nav : Navigation)
        → DrawnAt board see (navigated board layout back (some (nav, true)) sys)
    unfolding navigated
    navigated-Drawn back sys nav =
        let moved = record sys { app = record (sys.app) { navigation = nav } } in
        store_application-Drawn board see shows layout (render_current board back moved)
          (render_current-Drawn board see shows back moved)

    sound-At :
        (action : RendererAction) (sys : System Device W)
        → Running sys.link.socket_fd sys.app
        → (handle_action board layout action sys).app.faulty ≡ false
    sound-At action sys h =
        let (e, r) = handle_action-At board layout sys.link.socket_fd action sys (refl, h) in
        r.0.0.sound

    -- While the watch is running, the actions of the swipes turn its page to the next one and to the one
    -- before, in a circle of five: in the state, on the navigation's stack and in the cached record, and
    -- the screen that is loaded last is that of the new page. It is assumed that no call of the system but
    -- the loading of a screen changes what is seen.
    pub handle_action-Turned :
        (sys : System Device W)
        → Running sys.link.socket_fd sys.app
        → TurnedAt
            (page_after sys.app.state.active_screen)
            (handle_action board layout RendererAction.next sys)
          × TurnedAt
              (page_ahead sys.app.state.active_screen)
              (handle_action board layout RendererAction.previous sys)
    unfolding handle_action
    handle_action-Turned sys ((h, p, c), i) =
        let page = sys.app.state.active_screen in
        let (n, e, q, d, v) = next-current h.bounded p.0 p.1 in
        let (m, e', q', d', v') = previous-current h.bounded p.0 p.1 in
        let q'' : current m ≡ some (page_ahead page) = q' ∙ ap some (page_before-page_ahead page) in
        (
          (
            subst (λ x. Turned (page_after page) (navigated board layout false x sys).app) (sym e)
                (navigated-Turned false sys n (page_after page) sys.link.socket_fd ((h, p, c), i)
                  q),
            subst (λ x. DrawnAt board see (navigated board layout false x sys)) (sym e)
                (navigated-Drawn false sys n) (sound-At RendererAction.next sys ((h, p, c), i)),
          ),
          (
            subst (λ x. Turned (page_ahead page) (navigated board layout true x sys).app) (sym e')
                (navigated-Turned true sys m (page_ahead page) sys.link.socket_fd ((h, p, c), i)
                  q''),
            subst (λ x. DrawnAt board see (navigated board layout true x sys)) (sym e')
                (navigated-Drawn true sys m) (sound-At RendererAction.previous sys ((h, p, c), i)),
          ),
        )

  without_socket :
      (o : Option ℕ) (playing : Bool) (sys : System Device W)
      → o ≡ none
      → music_over board.net o playing sys ≡ (err enotconn, sys)
  unfolding music_over
  without_socket none playing sys e = refl
  without_socket (some fd) playing sys e = absurd (cc)

  refused :
      (playing : Bool) (sys : System Device W)
      → sys.link.socket_fd ≡ none
      → send_music_action board.net playing sys ≡ (err enotconn, sys)
  unfolding send_music_action
  refused playing sys e = without_socket sys.link.socket_fd playing sys e

  -- Nothing is pending, the music is as it was, and the user is told why.
  abbrev pub Reverted : Bool → Device → Type 0
  Reverted playing d =
      (d.state.music_playing ≡ playing)
      × (d.cache.music_playing ≡ playing)
      × (d.actions.pending ≡ false)
      × (d.state.music_action_pending ≡ false)
      × (d.state.music_action_feedback ≡ codes "HOST OFFLINE")

  -- The action that is begun while none is pending.
  abbrev tried : Bool → ℕ → Actions
  tried playing t = record {
    pending = true;
    previous_music_playing = playing;
    message_id = 0;
    started_at_ms = t;
  }

  begin_music-idle :
      (a : Actions) (s : WatchState) (t : ℕ)
      → a.pending ≡ false
      → (s' : WatchState) × (begin_music a s t ≡ (tried s.music_playing t, s', true))
        × (s'.notifications ≡ s.notifications)
  unfolding begin_music set_feedback
  begin_music-idle a s t e = (_, if_false _ _ e, refl)

  begun-Reverted :
      (playing : Bool) (t : ℕ) (state : WatchState) (sys : System Device W)
      → sys.link.socket_fd ≡ none
      → IsBrowsable state.notifications
      → Reverted playing (begun board layout (tried playing t, state, true) sys).app
  unfolding begun sent fail set_feedback store_sync store_sync_at save_record capture_sync seal
  begun-Reverted playing t state sys at v =
      let given = with_action (tried playing t) state sys in
      let text = codes "HOST OFFLINE" in
      let (actions, reverted) = fail (tried playing t) state text in
      refresh-world board
        (λ x.
          Reverted playing
            (store_sync board layout
              (sent board layout (send_music_action board.net x.app.state.music_playing x))).app)
        given v
        (λ w.
          let x = record given { world = w } in
          subst (λ r. Reverted playing (store_sync board layout (sent board layout r)).app)
            (sym (refused x.app.state.music_playing x at))
            (refresh-world board (λ y. Reverted playing (store_sync board layout y).app)
              (with_action actions reverted x) v (λ w'. (refl, refl, refl, refl, refl))))

  activate-Reverted :
      (sys : System Device W)
      → sys.link.socket_fd ≡ none
      → Running none sys.app
      → sys.app.state.active_screen ≡ Screen.music
      → Reverted sys.app.state.music_playing
          (handle_action board layout RendererAction.activate sys).app
  unfolding handle_action activate
  activate-Reverted sys at ((h, p, c), i) page =
      let (t, sys') = now_ms board sys in
      let on : on_screen sys.app.state Screen.music ≡ true = rw (page) refl in
      let (s, e, same) = begin_music-idle sys.app.actions sys.app.state t i in
      let playing = sys.app.state.music_playing in
      subst
        (λ x.
          Reverted playing
            (if x
              then begun board layout (begin_music sys.app.actions sys.app.state t) sys'
              else sys).app)
        (sym on)
        (subst (λ x. Reverted playing (begun board layout x sys').app) (sym e)
          (begun-Reverted playing t s sys' at (subst IsBrowsable (sym same) h.safe.browsable)))

  module _ (see : W → Picture) (shows : Shows board see) where
    begun-Drawn :
        (playing : Bool) (t : ℕ) (state : WatchState) (sys : System Device W)
        → sys.link.socket_fd ≡ none
        → IsBrowsable state.notifications
        → DrawnAt board see (begun board layout (tried playing t, state, true) sys)
    unfolding begun sent
    begun-Drawn playing t state sys at v =
        let given = with_action (tried playing t) state sys in
        refresh-world board
          (λ x. DrawnAt board see (
            store_sync board layout
              (sent board layout (send_music_action board.net x.app.state.music_playing x))))
          given v
          (λ w.
            let x = record given { world = w } in
            subst (λ r. DrawnAt board see (store_sync board layout (sent board layout r)))
              (sym (refused x.app.state.music_playing x at))
              (store_sync-Drawn board see shows layout (sent board layout (err enotconn, x))
                (refresh-Drawn board see shows _)))

    activate-Drawn :
        (sys : System Device W)
        → sys.link.socket_fd ≡ none
        → Running none sys.app
        → sys.app.state.active_screen ≡ Screen.music
        → DrawnAt board see (handle_action board layout RendererAction.activate sys)
    unfolding handle_action activate
    activate-Drawn sys at ((h, p, c), i) page =
        let (t, sys') = now_ms board sys in
        let on : on_screen sys.app.state Screen.music ≡ true = rw (page) refl in
        let (s, e, same) = begin_music-idle sys.app.actions sys.app.state t i in
        subst
          (λ x. DrawnAt board see (
            if x
            then begun board layout (begin_music sys.app.actions sys.app.state t) sys'
            else sys))
          (sym on)
          (subst (λ x. DrawnAt board see (begun board layout x sys')) (sym e)
            (begun-Drawn sys.app.state.music_playing t s sys' at
              (subst IsBrowsable (sym same) h.safe.browsable)))

    -- A tap on the music page of a watch that is running without a connection leaves the music as it
    -- was, in the state and in the cached record, with nothing pending, and sets the feedback
    -- "HOST OFFLINE"; and the screen that is loaded last is that of this state. It is assumed that no call
    -- of the system but the loading of a screen changes what is seen.
    pub activate-offline :
        (sys : System Device W)
        → sys.link.socket_fd ≡ none
        → Running none sys.app
        → sys.app.state.active_screen ≡ Screen.music
        → let out = handle_action board layout RendererAction.activate sys in
          Reverted sys.app.state.music_playing out.app
          × (renderer_screen out.app.state ≡ some (see out.world))
    activate-offline sys at h page = (
      activate-Reverted sys at h page,
      activate-Drawn sys at h page (
          let (e, r) = handle_action-At board layout none RendererAction.activate sys (at, h) in
          r.0.0.sound),
    )
