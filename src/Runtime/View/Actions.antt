-- ===== src/Runtime/View/Actions.antt =====
-- The user's actions keep what the display shows current.
use cmf_watch_pro_2_os.Base.{
  ℕ, refl, sym, subst, inl, inr, Bool, true, false, Option, none, some, codes, Result, ok, err,
  Errno, Bool-cases,
}
use cmf_watch_pro_2_os.State.{WatchState, Screen, notification_next, notification_previous}
use cmf_watch_pro_2_os.Navigation.{Navigation, next, previous}
use cmf_watch_pro_2_os.Actions.{Actions, begin_music, fail, bind_message}
use cmf_watch_pro_2_os.Cache.Record.{Layout}
use cmf_watch_pro_2_os.Renderer.{RendererAction}
use cmf_watch_pro_2_os.Renderer.Picture.{Picture}
use cmf_watch_pro_2_os.Renderer.Faces.{on_screen}
use cmf_watch_pro_2_os.Transport.Link.{System}
use cmf_watch_pro_2_os.Transport.Sending.{send_music_action}
use cmf_watch_pro_2_os.Transport.View.{send_music_action-Still}
use cmf_watch_pro_2_os.Runtime.{Device, Board, now_ms}
use cmf_watch_pro_2_os.Runtime.Display.{refresh, render_current}
use cmf_watch_pro_2_os.Runtime.Messages.{with_action}
use cmf_watch_pro_2_os.Runtime.Handling.{
  navigated, browsed, in_inbox, sent, begun, activate, handle_action,
}
use cmf_watch_pro_2_os.Runtime.View.{
  Shows, Live, LiveAt, Live-seen, now_ms-seen, refresh-Live, render_current-Live, store_sync-Live,
  store_application-Live,
}
use cmf_watch_pro_2_os.Runtime.View.Changes.{
  Reported, begin_music-Reported, next-Reported, previous-Reported,
}
use cmf_watch_pro_2_os.Runtime.View.Callbacks.{LiveAt-Still, with_action-Live}

in_inbox-Reported :
    (browse : WatchState → WatchState × Bool) (s : WatchState)
    → Reported s (browse s).0 (browse s).1
    → Reported s (in_inbox browse s).0 (in_inbox browse s).1
in_inbox-Reported browse s e = elim (Bool-cases (on_screen s Screen.notifications)) [
  | inl b ↦ rw (b) e
  | inr b ↦ rw (b) refl
]

module _ {W : Type 0} (board : Board W) (see : W → Picture) (shows : Shows board see)
    (layout : Layout) where
  navigated-Live :
      (back : Bool) (out : Option (Navigation × Bool)) (sys : System Device W)
      → LiveAt board see sys
      → LiveAt board see (navigated board layout back out sys)
  unfolding navigated
  navigated-Live back none sys h = (h.0, λ sound. absurd (cc))
  navigated-Live back (some (navigation, false)) sys h = h
  navigated-Live back (some (navigation, true)) sys h =
      let moved = record sys { app = record (sys.app) { navigation = navigation } } in
      store_application-Live board see shows layout (render_current board back moved)
        (render_current-Live board see shows back moved h.0)

  browsed-Live :
      (out : WatchState × Bool) (sys : System Device W)
      → Reported sys.app.state out.0 out.1
      → LiveAt board see sys
      → LiveAt board see (browsed board layout out sys)
  unfolding browsed
  browsed-Live (state, false) sys e h =
      subst (λ s. Live (record (sys.app) { state = s }) (see sys.world)) (sym e) h
  browsed-Live (state, true) sys e h =
      let moved = record sys { app = record (sys.app) { state = state } } in
      store_application-Live board see shows layout (refresh board moved)
        (refresh-Live board see shows moved h.0)

  sent-Live :
      (out : Result Errno ℕ × System Device W)
      → LiveAt board see out.1
      → LiveAt board see (sent board layout out)
  unfolding sent bind_message
  sent-Live (ok id, sys) h = h
  sent-Live (err e, sys) h =
      let given_up =
        with_action (fail sys.app.actions sys.app.state (codes "HOST OFFLINE")).0
          (fail sys.app.actions sys.app.state (codes "HOST OFFLINE")).1 sys in
      refresh-Live board see shows given_up h.0

  begun-Live :
      (out : Actions × WatchState × Bool) (sys : System Device W)
      → Reported sys.app.state out.1 out.2
      → LiveAt board see sys
      → LiveAt board see (begun board layout out sys)
  unfolding begun
  begun-Live (actions, state, false) sys e h = with_action-Live board see actions state sys e h
  begun-Live (actions, state, true) sys e h =
      let optimistic = refresh board (with_action actions state sys) in
      let playing = optimistic.app.state.music_playing in
      let out = send_music_action board.net playing optimistic in
      store_sync-Live board see shows layout (sent board layout out) (
        sent-Live out (
          LiveAt-Still board see
            (send_music_action-Still board.net see shows.network playing optimistic)
            (refresh-Live board see shows (with_action actions state sys) h.0)))

  activate-Live :
      (sys : System Device W) → LiveAt board see sys → LiveAt board see (activate board layout sys)
  unfolding activate
  activate-Live sys h = elim (Bool-cases (on_screen sys.app.state Screen.music)) [
    | inr b ↦ rw (b) h
    | inl b ↦
        let (t, sys') = now_ms board sys in
        rw (b) (
          begun-Live (begin_music sys.app.actions sys.app.state t) sys'
            (begin_music-Reported sys.app.actions sys.app.state t)
            (Live-seen board see sys.app sys.world sys'.world (now_ms-seen board see shows sys) h))
  ]

  pub handle_action-Live :
      (action : RendererAction) (sys : System Device W)
      → LiveAt board see sys
      → LiveAt board see (handle_action board layout action sys)
  unfolding handle_action
  handle_action-Live RendererAction.next sys h =
      navigated-Live false (next sys.app.navigation) sys h
  handle_action-Live RendererAction.previous sys h =
      navigated-Live true (previous sys.app.navigation) sys h
  handle_action-Live RendererAction.next_item sys h =
      browsed-Live (in_inbox notification_next sys.app.state) sys
        (in_inbox-Reported notification_next sys.app.state (next-Reported sys.app.state)) h
  handle_action-Live RendererAction.previous_item sys h =
      browsed-Live (in_inbox notification_previous sys.app.state) sys
        (in_inbox-Reported notification_previous sys.app.state (previous-Reported sys.app.state)) h
  handle_action-Live RendererAction.activate sys h = activate-Live sys h
