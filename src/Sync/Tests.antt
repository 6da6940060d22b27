-- ===== src/Sync/Tests.antt =====
-- Witnesses and runs of the synchronisation.
use cmf_watch_pro_2_os.Base.{
  ℕ, ◌^◌, ◌<◌, ◌≡◌, refl, Bool, true, false, List, [], ◌∷◌, some, arith, replicate, codes, ok,
  span_equal,
}
use cmf_watch_pro_2_os.Json.Samples.{sample, snapshot_text, list_token}
use cmf_watch_pro_2_os.State
use cmf_watch_pro_2_os.State.{WatchState, NotificationList, reset_host_owned, blank_notification}
use cmf_watch_pro_2_os.Protocol.Messages.{Message, MessageType, same_type}
use cmf_watch_pro_2_os.Sync.Values.{find_member, parse_u64, parse_notifications}
use cmf_watch_pro_2_os.Sync.Snapshots.{parse_snapshot}
use cmf_watch_pro_2_os.Sync.Snapshots.Candidate.{IsSafe, watch_owned, parse_snapshot-IsSafe}
use cmf_watch_pro_2_os.Sync.Mutations.{Mutation, Change, blank_mutation}
use cmf_watch_pro_2_os.Sync.Buffer.{Sync, replay_loop, replay_buffer}
use cmf_watch_pro_2_os.Sync.Buffer.Replay.{Replayed, replay_buffer-Replayed}
use cmf_watch_pro_2_os.Sync.Handle
use cmf_watch_pro_2_os.Sync.Handle.{SyncResult, handle_snapshot, handle}
use cmf_watch_pro_2_os.Sync.Handle.Sessions.{
  Event, connects, disconnects, arrives, run, run-IsServing,
}
use cmf_watch_pro_2_os.Sync.Snapshots.Candidate.{Fills}
use cmf_watch_pro_2_os.Sync.Handle.Sequence.{Chain, receive, receive-Chain}
use cmf_watch_pro_2_os.Sync.Handle.Service.{IsServing, Served, init-IsServing, handle-Served}

abbrev one : NotificationList
one = record {
  total_count = 1;
  stored_count = 1;
  active_index = 0;
  entries = record { title = codes "Hi"; body = codes "Ho" } ∷ replicate 3 blank_notification;
}

one_parses : parse_notifications sample list_token ≡ ok one
unfolding parse_notifications span_equal
one_parses = refl

abbrev snapshot : Message
snapshot = record {
  type = MessageType.sync_response;
  id = 4;
  reply_to = 0;
  has_reply_to = false;
  payload = snapshot_text;
}

abbrev read : WatchState
read = record (reset_host_owned (State.init)) { steps = 10; notifications = one }

snapshot_parses : parse_snapshot sample snapshot (State.init) ≡ ok (read, 2)
unfolding parse_snapshot find_member span_equal parse_u64 parse_notifications
snapshot_parses = refl

parse_snapshot-IsSafe_example :
    (watch_owned read ≡ watch_owned (State.init)) × IsSafe read × (2 < 2 ^ 64)
parse_snapshot-IsSafe_example =
    parse_snapshot-IsSafe sample snapshot (State.init) read 2 snapshot_parses

abbrev waits : ℕ → ℕ → Mutation
waits revision n = record { occupied = true; revision = revision; change = Change.steps n }

-- Revisions 4 and 3 wait, and 7, which nothing leads up to.
abbrev waiting : Sync
waiting = record {
  revision = 2;
  syncing = true;
  buffered = waits 4 40 ∷ waits 7 70 ∷ waits 3 30 ∷ replicate 13 blank_mutation;
}

replay_buffer-Replayed_example :
    (out : Sync × WatchState × Bool) × (replay_buffer waiting (State.init) ≡ some out)
    × Replayed 17 2 waiting.buffered (State.init) out
replay_buffer-Replayed_example = replay_buffer-Replayed waiting (State.init) (omega arith)

receive-Chain_example :
    Chain
      (waits 1 10 ∷ waits 3 30 ∷ waits 2 20 ∷ [])
      0
      (State.init)
      (receive (waits 1 10 ∷ waits 3 30 ∷ waits 2 20 ∷ []) Handle.init (State.init)).0.revision
      (receive (waits 1 10 ∷ waits 3 30 ∷ waits 2 20 ∷ []) Handle.init (State.init)).1
receive-Chain_example =
    receive-Chain (waits 1 10 ∷ waits 3 30 ∷ waits 2 20 ∷ []) Handle.init (State.init) (omega arith)

handle-Served_example :
    (out : SyncResult × Sync × WatchState) × (handle sample Handle.init (State.init) snapshot
      ≡ some out)
    × Served (State.init) out
handle-Served_example = handle-Served sample Handle.init (State.init) snapshot init-IsServing

snapshot_is_taken :
    handle sample Handle.init (State.init) snapshot
    ≡ some (SyncResult.changed, record (Handle.init) { revision = 2 }, read)
unfolding handle handle_snapshot replay_buffer replay_loop parse_snapshot find_member span_equal
    parse_u64 parse_notifications same_type
snapshot_is_taken = refl

abbrev session : List Event
session = connects ∷ arrives snapshot ∷ disconnects ∷ connects ∷ arrives snapshot ∷ []

run-IsServing_example :
    (out : Sync × WatchState) × (run sample session (Handle.init, State.init) ≡ some out)
    × IsServing out.0
    × Fills (State.init) out.1
run-IsServing_example = run-IsServing sample session Handle.init (State.init) init-IsServing
