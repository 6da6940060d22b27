-- ===== src/Runtime/View/Callbacks.antt =====
-- The transport's callbacks keep what the display shows current.
use cmf_watch_pro_2_os.Base.{
  ◌≡◌, ◌∙◌, refl, sym, subst, inl, inr, Bool, true, false, Option, none, some, ltb, Bool-cases,
}
use cmf_watch_pro_2_os.Json.{Json}
use cmf_watch_pro_2_os.State.{WatchState}
use cmf_watch_pro_2_os.Actions.{Actions, handle_result}
use cmf_watch_pro_2_os.Protocol.Messages.{Message, MessageType, same_type}
use cmf_watch_pro_2_os.Sync.Buffer.{Sync}
use cmf_watch_pro_2_os.Sync.Handle.{SyncResult, handle}
use cmf_watch_pro_2_os.Cache.Record.{Layout}
use cmf_watch_pro_2_os.Renderer.Picture.{Picture, renderer_screen}
use cmf_watch_pro_2_os.Transport.Link.{System, TransportEvent}
use cmf_watch_pro_2_os.Transport.View.{Still, request_sync-Still}
use cmf_watch_pro_2_os.Transport.View.Kept.{Keeps}
use cmf_watch_pro_2_os.Runtime.{Device, Board}
use cmf_watch_pro_2_os.Runtime.Storing.{save_record, store_sync, store_sync_at, store_stale}
use cmf_watch_pro_2_os.Runtime.Messages.{
  with_action, reconciled, settle, answer, synchronised, handle_protocol_message, go_offline,
  mark_cached, handle_transport_event, callbacks,
}
use cmf_watch_pro_2_os.Runtime.View.{Shows, Live, LiveAt, Live-seen, refresh_if_ready-Live}
use cmf_watch_pro_2_os.Runtime.View.Changes.{
  Reported, Silent, SilentIf, handle_result-Reported, handle-Silent,
}

module _ {W : Type 0} (board : Board W) (see : W → Picture) where
  pub LiveAt-Still :
      {sys out : System Device W}
      → Still board.net see sys out
      → LiveAt board see sys
      → LiveAt board see out
  LiveAt-Still {sys} {out} p h =
      subst (λ d. Live d (see out.world)) (sym p.app)
        (Live-seen board see sys.app sys.world out.world p.seen h)

  -- The state is the same, whatever becomes of the action.
  pub with_action-Live :
      (actions : Actions) (state : WatchState) (sys : System Device W)
      → state ≡ sys.app.state
      → LiveAt board see sys
      → LiveAt board see (with_action actions state sys)
  with_action-Live actions state sys e h =
      subst (λ s. Live (record (sys.app) { actions = actions; state = s }) (see sys.world)) (sym e)
        h

  -- The service has a new state, and the display is current already.
  served-Live :
      (sync : Sync) (state : WatchState) (sys : System Device W)
      → (sync.syncing ≡ false → (state ≡ sys.app.state) × (sys.app.sync.syncing ≡ false))
      → LiveAt board see sys
      → LiveAt board see (record sys { app = record (sys.app) { sync = sync; state = state } })
  served-Live sync state sys unchanged (ready, h) = (
    ready,
    λ sound settled.
        let (e, b) = unchanged settled in
        subst (λ s. renderer_screen s ≡ some (see sys.world)) (sym e) (h sound b),
  )

  module _ (shows : Shows board see) (layout : Layout) where
    reconciled-Live :
        (out : Actions × WatchState × Bool) (sys : System Device W)
        → Reported sys.app.state out.1 out.2
        → LiveAt board see sys
        → LiveAt board see (reconciled board layout out sys)
    unfolding reconciled store_sync store_sync_at save_record
    reconciled-Live (actions, state, true) sys e h =
        refresh_if_ready-Live board see shows
          (store_sync board layout (with_action actions state sys)) h.0
    reconciled-Live (actions, state, false) sys e h = with_action-Live actions state sys e h

    settle-Live :
        (sys : System Device W)
        → sys.app.runtime_ready ≡ true
        → LiveAt board see (settle board layout sys)
    unfolding settle store_sync_at save_record
    settle-Live sys ready = refresh_if_ready-Live board see shows _ ready

    answer-Live :
        (result : SyncResult) (sync : Sync) (state : WatchState) (sys : System Device W)
        → Silent sys.app.sync sys.app.state (result, sync, state)
        → LiveAt board see sys
        → LiveAt board see
            (answer board layout result
              (record sys { app = record (sys.app) { sync = sync; state = state } })).1
    unfolding answer
    answer-Live SyncResult.changed sync state sys e h =
        settle-Live (record sys { app = record (sys.app) { sync = sync; state = state } }) h.0
    answer-Live SyncResult.unchanged sync state sys e h = served-Live sync state sys e h
    answer-Live SyncResult.buffered sync state sys e h = served-Live sync state sys e h
    answer-Live SyncResult.error sync state sys e h = served-Live sync state sys e h
    answer-Live SyncResult.needs_snapshot sync state sys e h =
        LiveAt-Still
          (request_sync-Still board.net see shows.network sync.revision
            (record sys { app = record (sys.app) { sync = sync; state = state } }))
          (served-Live sync state sys e h)

    synchronised-Live :
        (out : Option (SyncResult × Sync × WatchState)) (sys : System Device W)
        → SilentIf sys.app.sync sys.app.state out
        → LiveAt board see sys
        → LiveAt board see (synchronised board layout out sys).1
    unfolding synchronised
    synchronised-Live none sys e h = (h.0, λ sound. absurd (cc))
    synchronised-Live (some (result, sync, state)) sys e h = answer-Live result sync state sys e h

    handle_protocol_message-Live :
        (json : Json) (m : Message) (sys : System Device W)
        → LiveAt board see sys
        → LiveAt board see (handle_protocol_message board layout json m sys).1
    unfolding handle_protocol_message
    handle_protocol_message-Live json m sys h =
        elim (Bool-cases (same_type m.type MessageType.command_result)) [
          | inl b ↦ rw (b) (
              reconciled-Live (handle_result sys.app.actions sys.app.state m) sys
                (handle_result-Reported sys.app.actions sys.app.state m) h)
          | inr b ↦ rw (b) (
              synchronised-Live (handle json sys.app.sync sys.app.state m) sys
                (handle-Silent json sys.app.sync sys.app.state m) h)
        ]

    mark_cached-ready :
        (sys : System Device W)
        → (mark_cached board layout sys).app.runtime_ready ≡ sys.app.runtime_ready
    unfolding mark_cached store_stale save_record
    mark_cached-ready sys = elim (Bool-cases (ltb 0 sys.app.cache.weather_meta.version)) [
      | inl b ↦ rw (b) refl
      | inr b ↦ rw (b) refl
    ]

    handle_transport_event-Live :
        (event : TransportEvent) (sys : System Device W)
        → LiveAt board see sys
        → LiveAt board see (handle_transport_event board layout event sys)
    unfolding handle_transport_event
    handle_transport_event-Live TransportEvent.connected sys h =
        refresh_if_ready-Live board see shows _ h.0
    handle_transport_event-Live TransportEvent.disconnected sys h =
        refresh_if_ready-Live board see shows _
          (mark_cached-ready (go_offline board layout sys) ∙ h.0)

    pub callbacks-Keeps : (json : Json) → Keeps board.net (callbacks board layout json) see Live
    callbacks-Keeps json = record {
      message = λ m sys h. handle_protocol_message-Live json m sys h;
      event = λ e sys h. handle_transport_event-Live e sys h;
    }
