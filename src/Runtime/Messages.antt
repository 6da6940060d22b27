-- ===== src/Runtime/Messages.antt =====
-- `handle_protocol_message` and `handle_transport_event` of watch_runtime.c, the transport's callbacks.
use cmf_watch_pro_2_os.Base.{
  Bool, true, false, Option, none, some, ltb, if◌then◌else◌, codes, Result, ok, err, Errno, einval,
}
use cmf_watch_pro_2_os.Json.{Json}
use cmf_watch_pro_2_os.State.{WatchState, ConnectionState}
use cmf_watch_pro_2_os.Actions.{Actions, fail, handle_result}
use cmf_watch_pro_2_os.Protocol.Messages.{Message, MessageType, same_type}
use cmf_watch_pro_2_os.Sync.Buffer.{Sync}
use cmf_watch_pro_2_os.Sync.Handle.{SyncResult, handle, connected, disconnected}
use cmf_watch_pro_2_os.Cache.Record.{Layout}
use cmf_watch_pro_2_os.Transport.Link.{System, Client, TransportEvent}
use cmf_watch_pro_2_os.Transport.Sending.{request_sync}
use cmf_watch_pro_2_os.Runtime.{Device, Board, faulted, now_ms}
use cmf_watch_pro_2_os.Runtime.Display.{refresh_if_ready}
use cmf_watch_pro_2_os.Runtime.Storing.{store_sync, store_sync_at, store_stale}

abbrev pub with_action : {W : Type 0} → Actions → WatchState → System Device W → System Device W
with_action actions state sys = record sys {
  app = record (sys.app) { actions = actions; state = state };
}

-- What becomes of an action when the connection is lost.
abbrev pub abandon : Actions → WatchState → Actions × WatchState
abandon actions state =
    if actions.pending then fail actions state (codes "HOST OFFLINE") else (actions, state)

module _ {W : Type 0} (board : Board W) (layout : Layout) where
  -- What `watch_actions_handle_result` reports.
  unfoldable pub reconciled : Actions × WatchState × Bool → System Device W → System Device W
  reconciled (actions, state, true) sys =
      refresh_if_ready board (store_sync board layout (with_action actions state sys))
  reconciled (actions, state, false) sys = with_action actions state sys

  -- The branch for WATCH_SYNC_CHANGED.
  unfoldable pub settle : System Device W → System Device W
  settle sys =
      let (t, sys') = now_ms board sys in
      refresh_if_ready board (
        store_sync_at board layout t (record sys' {
          app = record (sys'.app) {
            state = record (sys'.app.state) {
              connection = ConnectionState.online;
              host_data_stale = false;
              host_data_updated_at_ms = t;
            };
          };
        }))

  unfoldable pub answer : SyncResult → System Device W → Result Errno (Unit {0}) × System Device W
  unfolding settle
  answer SyncResult.error sys = (err einval, sys)
  answer SyncResult.needs_snapshot sys = request_sync board.net sys.app.sync.revision sys
  answer SyncResult.changed sys = (ok tt, settle sys)
  answer SyncResult.unchanged sys = (ok tt, sys)
  answer SyncResult.buffered sys = (ok tt, sys)

  -- What `watch_sync_handle` returns.
  unfoldable pub synchronised :
      Option (SyncResult × Sync × WatchState)
      → System Device W
      → Result Errno (Unit {0}) × System Device W
  unfolding answer
  synchronised none sys = (err einval, faulted sys)
  synchronised (some (result, sync, state)) sys =
      answer result (record sys { app = record (sys.app) { sync = sync; state = state } })

  unfoldable pub handle_protocol_message :
      Json → Message → System Device W → Result Errno (Unit {0}) × System Device W
  unfolding reconciled synchronised
  handle_protocol_message json message sys =
      if same_type message.type MessageType.command_result
      then (ok tt, reconciled (handle_result sys.app.actions sys.app.state message) sys)
      else synchronised (handle json sys.app.sync sys.app.state message) sys

  abbrev pub go_offline : System Device W → System Device W
  go_offline sys =
      let (actions, state) = abandon sys.app.actions sys.app.state in
      record sys {
        app = record (sys.app) {
          actions = actions;
          state = record state { connection = ConnectionState.offline };
          sync = disconnected sys.app.sync;
        };
      }

  -- The part that is done where the cache holds the host's data.
  unfoldable pub mark_cached : System Device W → System Device W
  mark_cached sys =
      if ltb 0 sys.app.cache.weather_meta.version
      then store_stale board layout (record sys {
        app = record (sys.app) { state = record (sys.app.state) { host_data_stale = true } };
      })
      else sys

  unfoldable pub handle_transport_event : TransportEvent → System Device W → System Device W
  unfolding mark_cached
  handle_transport_event TransportEvent.connected sys = refresh_if_ready board (record sys {
    app = record (sys.app) {
      state = record (sys.app.state) { connection = ConnectionState.connecting };
      sync = connected sys.app.sync;
    };
  })
  handle_transport_event TransportEvent.disconnected sys =
      refresh_if_ready board (mark_cached (go_offline sys))

  abbrev pub callbacks : Json → Client Device W
  callbacks json = record {
    on_message = λ message sys. handle_protocol_message json message sys;
    on_event = λ event sys. handle_transport_event event sys;
  }
