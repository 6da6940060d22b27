-- ===== src/Runtime/Health/Messages.antt =====
-- The protocol's messages keep the watch running.
use cmf_watch_pro_2_os.Base.{ℕ, inl, inr, Bool, true, false, some, Bool-cases}
use cmf_watch_pro_2_os.Json.{Json}
use cmf_watch_pro_2_os.State.{WatchState, ConnectionState}
use cmf_watch_pro_2_os.Actions.{Actions, handle_result}
use cmf_watch_pro_2_os.Protocol.Messages.{Message, MessageType, same_type}
use cmf_watch_pro_2_os.Sync.Handle.{SyncResult}
use cmf_watch_pro_2_os.Sync.Handle.Service.{handle-Served}
use cmf_watch_pro_2_os.Sync.Snapshots.Candidate.{Fills, IsSafe}
use cmf_watch_pro_2_os.Cache.Record.{Layout}
use cmf_watch_pro_2_os.Transport.Link.{System}
use cmf_watch_pro_2_os.Transport.Sending.Unchanged.{request_sync-Same}
use cmf_watch_pro_2_os.Runtime.{Device, Board, now_ms}
use cmf_watch_pro_2_os.Runtime.Storing.{store_sync, store_sync_at}
use cmf_watch_pro_2_os.Runtime.Messages.{
  with_action, reconciled, settle, answer, synchronised, handle_protocol_message,
}
use cmf_watch_pro_2_os.Runtime.Health.{
  Sending-Fills, At, At-Same, refresh_if_ready-At, store_sync-At, store_sync_at-At,
}
use cmf_watch_pro_2_os.Runtime.Health.Actions.{handle_result-Fills}

-- A state that differs only in the connection and in what the runtime notes of it.
pub noted :
    (s : WatchState) {c : ConnectionState} {b : Bool} {t : ℕ}
    → IsSafe s
    → IsSafe (record s { connection = c; host_data_stale = b; host_data_updated_at_ms = t })
noted s h = record {
  condition = h.condition;
  title = h.title;
  browsable = h.browsable;
  texts = h.texts;
}

module _ {W : Type 0} (board : Board W) (layout : Layout) where
  reconciled-At :
      (fd : ℕ) (out : Actions × WatchState × Bool) (sys : System Device W)
      → At (some fd) sys
      → Fills sys.app.state out.1
      → At (some fd) (reconciled board layout out sys)
  unfolding reconciled
  reconciled-At fd (actions, state, true) sys (at, (r, i)) f =
      refresh_if_ready-At board (some fd) (store_sync board layout (with_action actions state sys))
        (store_sync-At board layout (some fd) (with_action actions state sys)
          (at, (Sending-Fills sys.app (some fd) f r, tt)))
  reconciled-At fd (actions, state, false) sys (at, (r, i)) f =
      (at, (Sending-Fills sys.app (some fd) f r, tt))

  settle-At :
      (fd : ℕ) (sys : System Device W) → At (some fd) sys → At (some fd) (settle board layout sys)
  unfolding settle
  settle-At fd sys (at, ((h, p, c), i)) =
      let (t, sys') = now_ms board sys in
      let online = record sys' {
        app = record (sys'.app) {
          state = record (sys'.app.state) {
            connection = ConnectionState.online;
            host_data_stale = false;
            host_data_updated_at_ms = t;
          };
        };
      } in
      refresh_if_ready-At board (some fd) (store_sync_at board layout t online) (
        store_sync_at-At board layout (some fd) t online (
          at,
          (
            (
              record {
                safe = noted sys.app.state h.safe;
                bounded = h.bounded;
                serving = h.serving;
                near = h.near;
                sound = h.sound;
              },
              p,
              λ e. cc,
            ),
            tt,
          ),
        ))

  answer-At :
      (fd : ℕ) (result : SyncResult) (sys : System Device W)
      → At (some fd) sys
      → At (some fd) (answer board layout result sys).1
  unfolding answer
  answer-At fd SyncResult.error sys h = h
  answer-At fd SyncResult.needs_snapshot sys h =
      At-Same (some fd) (request_sync-Same board.net sys.app.sync.revision sys) h
  answer-At fd SyncResult.changed sys h = settle-At fd sys h
  answer-At fd SyncResult.unchanged sys h = h
  answer-At fd SyncResult.buffered sys h = h

  module _ (json : Json) where
    pub handle_protocol_message-At :
        (fd : ℕ) (m : Message) (sys : System Device W)
        → At (some fd) sys
        → At (some fd) (handle_protocol_message board layout json m sys).1
    unfolding handle_protocol_message synchronised
    handle_protocol_message-At fd m sys (at, ((h, p, c), i)) =
        elim (Bool-cases (same_type m.type MessageType.command_result)) [
          | inl b ↦ rw (b) (
              reconciled-At fd (handle_result sys.app.actions sys.app.state m) sys
                (at, ((h, p, c), i)) (handle_result-Fills sys.app.actions sys.app.state m))
          | inr b ↦
              let ((result, sync, state), e, served) =
                handle-Served json sys.app.sync sys.app.state m h.serving in
              rw (b, e)
                (answer-At fd result
                  (record sys { app = record (sys.app) { sync = sync; state = state } })
                  (
                    at,
                    (
                      Sending-Fills (record (sys.app) { sync = sync }) (some fd) served.fills
                          (
                            record {
                              safe = h.safe;
                              bounded = h.bounded;
                              serving = served.serving;
                              near = h.near;
                              sound = h.sound;
                            },
                            p,
                            c,
                          ),
                      tt,
                    ),
                  ))
        ]
