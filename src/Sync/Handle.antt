-- ===== src/Sync/Handle.antt =====
-- The synchronisation service's own operations.
pub mod Sequence
pub mod Sessions
pub mod Service
pub mod Convergence
use cmf_watch_pro_2_os.Base.{
  ℕ, ◌+◌, ◌%◌, ◌^◌, Bool, true, false, not, ◌||◌, List, Option, none, some, ltb, leb, if◌then◌else◌,
  Result, ok, err,
}
use cmf_watch_pro_2_os.Json.{Json}
use cmf_watch_pro_2_os.State.{WatchState}
use cmf_watch_pro_2_os.Protocol.Messages.{Message, MessageType, same_type}
use cmf_watch_pro_2_os.Sync.Snapshots.{parse_snapshot}
use cmf_watch_pro_2_os.Sync.Mutations.{Mutation, parse_mutation, apply_change}
use cmf_watch_pro_2_os.Sync.Buffer.{Sync, empty_buffer, buffer_mutation, replay_buffer}

-- `enum watch_sync_result`
pub data SyncResult : Type 0 where
  unchanged changed buffered needs_snapshot error : SyncResult

abbrev pub init : Sync
init = record { revision = 0; syncing = false; buffered = empty_buffer }

unfoldable pub connected : Sync → Sync
connected sync = record sync { syncing = true }

unfoldable pub disconnected : Sync → Sync
disconnected sync = record sync { syncing = false; buffered = empty_buffer }

unfoldable pub is_synchronized : Sync → Bool
is_synchronized sync = not sync.syncing

abbrev pub sync_revision : Sync → ℕ
sync_revision sync = sync.revision

-- What buffering reports, and the service after it.
unfoldable pub report : Sync → Mutation → SyncResult → SyncResult × Sync
report sync m done = elim (buffer_mutation sync m) [
  | err e ↦ (SyncResult.error, sync)
  | ok sync' ↦ (done, sync')
]

-- The part of `watch_sync_handle` that follows `parse_mutation`.
unfoldable pub handle_mutation : Sync → WatchState → Mutation → SyncResult × Sync × WatchState
unfolding report
handle_mutation sync s m =
    if leb m.revision sync.revision
    then (SyncResult.unchanged, sync, s)
    else if sync.syncing
    then (let (result, sync') = report sync m SyncResult.buffered in (result, sync', s))
    else if ltb ((sync.revision + 1) % 2 ^ 64) m.revision
    then (let (result, sync') =
          report (record sync { syncing = true }) m SyncResult.needs_snapshot in
        (result, sync', s))
    else (SyncResult.changed, record sync { revision = m.revision }, apply_change s m.change)

-- The part that follows `parse_snapshot`.
unfoldable pub handle_snapshot : Sync → WatchState → ℕ → Option (SyncResult × Sync × WatchState)
handle_snapshot sync candidate revision =
    elim (replay_buffer (record sync { revision = revision }) candidate) [
      | none ↦ none
      | some (sync', s', _) ↦
          some
            ((if sync'.syncing then SyncResult.needs_snapshot else SyncResult.changed), sync', s')
    ]

module _ (json : Json) where
  -- `none` would mean that the replay does not end.
  unfoldable pub handle : Sync → WatchState → Message → Option (SyncResult × Sync × WatchState)
  handle sync s message =
      if same_type message.type MessageType.sync_response
      then (elim (parse_snapshot json message s) [
        | err e ↦ some (SyncResult.error, sync, s)
        | ok (candidate, revision) ↦ handle_snapshot sync candidate revision
      ])
      else if same_type message.type MessageType.state_set
          || same_type message.type MessageType.state_patch
      then (elim (parse_mutation json message) [
        | err e ↦ some (SyncResult.error, sync, s)
        | ok m ↦ some (handle_mutation sync s m)
      ])
      else some (SyncResult.unchanged, sync, s)
