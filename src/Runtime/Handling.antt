-- ===== src/Runtime/Handling.antt =====
-- `handle_action` of watch_runtime.c.
use cmf_watch_pro_2_os.Base.{
  ℕ, Bool, true, false, Option, none, some, if◌then◌else◌, codes, Result, ok, err, Errno,
}
use cmf_watch_pro_2_os.State.{WatchState, Screen, notification_next, notification_previous}
use cmf_watch_pro_2_os.Navigation.{Navigation, next, previous}
use cmf_watch_pro_2_os.Actions.{Actions, begin_music, bind_message, fail}
use cmf_watch_pro_2_os.Cache.Record.{Layout}
use cmf_watch_pro_2_os.Renderer.{RendererAction}
use cmf_watch_pro_2_os.Renderer.Faces.{on_screen}
use cmf_watch_pro_2_os.Transport.Link.{System}
use cmf_watch_pro_2_os.Transport.Sending.{send_music_action}
use cmf_watch_pro_2_os.Runtime.{Device, Board, faulted, now_ms}
use cmf_watch_pro_2_os.Runtime.Display.{refresh, render_current}
use cmf_watch_pro_2_os.Runtime.Storing.{store_sync, store_application}
use cmf_watch_pro_2_os.Runtime.Messages.{with_action}

abbrev pub in_inbox : (WatchState → WatchState × Bool) → WatchState → WatchState × Bool
in_inbox browse state =
    if on_screen state Screen.notifications then browse state else (state, false)

module _ {W : Type 0} (board : Board W) (layout : Layout) where
  -- What `navigation_next` and `navigation_previous` report.
  unfoldable pub navigated : Bool → Option (Navigation × Bool) → System Device W → System Device W
  navigated back none sys = faulted sys
  navigated back (some (navigation, changed)) sys =
      let moved = record sys { app = record (sys.app) { navigation = navigation } } in
      if changed then store_application board layout (render_current board back moved) else moved

  -- What the browsing of the notifications reports.
  unfoldable pub browsed : WatchState × Bool → System Device W → System Device W
  browsed (state, changed) sys =
      let moved = record sys { app = record (sys.app) { state = state } } in
      if changed then store_application board layout (refresh board moved) else moved

  -- What `transport_send_music_action` reports.
  unfoldable pub sent : Result Errno ℕ × System Device W → System Device W
  sent (ok message_id, sys) = record sys {
    app = record (sys.app) { actions = bind_message sys.app.actions message_id };
  }
  sent (err e, sys) =
      let (actions, state) = fail sys.app.actions sys.app.state (codes "HOST OFFLINE") in
      refresh board (with_action actions state sys)

  -- What `watch_actions_begin_music` reports.
  unfoldable pub begun : Actions × WatchState × Bool → System Device W → System Device W
  unfolding sent
  begun (actions, state, true) sys =
      let optimistic = refresh board (with_action actions state sys) in
      store_sync board layout
        (sent (send_music_action board.net optimistic.app.state.music_playing optimistic))
  begun (actions, state, false) sys = with_action actions state sys

  unfoldable pub activate : System Device W → System Device W
  unfolding begun
  activate sys =
      let (t, sys') = now_ms board sys in
      if on_screen sys.app.state Screen.music
      then begun (begin_music sys'.app.actions sys'.app.state t) sys'
      else sys

  unfoldable pub handle_action : RendererAction → System Device W → System Device W
  unfolding navigated browsed activate
  handle_action RendererAction.next sys = navigated false (next sys.app.navigation) sys
  handle_action RendererAction.previous sys = navigated true (previous sys.app.navigation) sys
  handle_action RendererAction.next_item sys =
      browsed (in_inbox notification_next sys.app.state) sys
  handle_action RendererAction.previous_item sys =
      browsed (in_inbox notification_previous sys.app.state) sys
  handle_action RendererAction.activate sys = activate sys
