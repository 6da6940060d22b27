-- ===== src/Runtime/View/Changes.antt =====
-- What reports no change has left the state as it was; this is what the runtime relies on where it draws
-- nothing.
use cmf_watch_pro_2_os.Base.{
  ℕ, ◌+◌, ◌%◌, ◌^◌, ◌≡◌, refl, inl, inr, Bool, true, false, not, ◌||◌, Option, none, some, arith,
  codes, ltb, leb, Bool-cases, Result-cases, Option-cases, if◌then◌else◌, ok, ◌∙◌, ◌==◌,
}
use cmf_watch_pro_2_os.Json.{Json}
use cmf_watch_pro_2_os.State.{WatchState, notification_next, notification_previous}
use cmf_watch_pro_2_os.Protocol.Messages.{Message, MessageType, same_type}
use cmf_watch_pro_2_os.Actions.{
  Actions, begin_music, handle_result, poll_timeout, answers, elapsed, action_timeout_ms,
  payload_contains_status,
}
use cmf_watch_pro_2_os.Sync.Snapshots.{parse_snapshot}
use cmf_watch_pro_2_os.Sync.Mutations.{Mutation, parse_mutation}
use cmf_watch_pro_2_os.Sync.Buffer.{Sync, buffer_mutation, replay_buffer, holds_revision, place}
use cmf_watch_pro_2_os.Sync.Handle.{SyncResult, report, handle_mutation, handle_snapshot, handle}

-- The state that is left, where it is reported whether it has changed.
abbrev pub Reported : WatchState → WatchState → Bool → Type 0
Reported s s' true = Unit
Reported s s' false = s' ≡ s

pub begin_music-Reported :
    (a : Actions) (s : WatchState) (t : ℕ)
    → let (a', s', started) = begin_music a s t in Reported s s' started
unfolding begin_music
begin_music-Reported a s t = elim (Bool-cases a.pending) [ inl b ↦ rw (b) refl | inr b ↦ rw (b) tt ]

pub handle_result-Reported :
    (a : Actions) (s : WatchState) (m : Message)
    → let (a', s', handled) = handle_result a s m in Reported s s' handled
unfolding handle_result
handle_result-Reported a s m = elim (Bool-cases (answers a m)) [
  | inr b ↦ rw (b) refl
  | inl b ↦ elim (Bool-cases (payload_contains_status m (codes "ok"))) [
    | inl c ↦ rw (b, c) tt
    | inr c ↦ rw (b, c) tt
  ]
]

pub poll_timeout-Reported :
    (a : Actions) (s : WatchState) (t : ℕ)
    → let (a', s', expired) = poll_timeout a s t in Reported s s' expired
unfolding poll_timeout
poll_timeout-Reported a s t =
    elim (Bool-cases (not a.pending || ltb (elapsed a t) action_timeout_ms)) [
      | inl b ↦ rw (b) refl
      | inr b ↦ rw (b) tt
    ]

pub next-Reported :
    (s : WatchState) → let (s', changed) = notification_next s in Reported s s' changed
unfolding notification_next
next-Reported s =
    elim (Bool-cases (leb s.notifications.stored_count (s.notifications.active_index + 1))) [
      | inl b ↦ rw (b) refl
      | inr b ↦ rw (b) tt
    ]

pub previous-Reported :
    (s : WatchState) → let (s', changed) = notification_previous s in Reported s s' changed
unfolding notification_previous
previous-Reported s = elim (Bool-cases (s.notifications.active_index == 0)) [
  | inl b ↦ rw (b) refl
  | inr b ↦ rw (b) tt
]

-- Where the service reports no change, the state is the one before, unless a snapshot is awaited now;
-- and if none is, none was.
abbrev pub Silent : Sync → WatchState → SyncResult × Sync × WatchState → Type 0
Silent sync s (SyncResult.changed, sync', s') = Unit
Silent sync s (_, sync', s') = sync'.syncing ≡ false → (s' ≡ s) × (sync.syncing ≡ false)

buffer_mutation-syncing :
    (sync sync' : Sync) (m : Mutation)
    → buffer_mutation sync m ≡ ok sync'
    → sync'.syncing ≡ sync.syncing
unfolding buffer_mutation
buffer_mutation-syncing sync sync' m e =
    elim (Bool-cases (holds_revision m.revision sync.buffered)) [
      | inl b ↦ ground arith
      | inr b ↦ elim (Result-cases (place m sync.buffered)) [
        | inl (ms, p) ↦ ground arith
        | inr (x, p) ↦ ground arith
      ]
    ]

report-syncing :
    (sync : Sync) (m : Mutation) (done : SyncResult) → (report sync m done).1.syncing ≡ sync.syncing
unfolding report
report-syncing sync m done = elim (Result-cases (buffer_mutation sync m)) [
  | inl (sync', e) ↦ rw (e, report) (buffer_mutation-syncing sync sync' m e)
  | inr (x, e) ↦ rw (e, report) refl
]

-- While a snapshot is awaited there is nothing to show.
awaiting-Silent :
    (sync sync' : Sync) (s s' : WatchState) (result : SyncResult)
    → sync'.syncing ≡ true
    → Silent sync s (result, sync', s')
awaiting-Silent sync sync' s s' SyncResult.changed b = tt
awaiting-Silent sync sync' s s' SyncResult.unchanged b = λ c. absurd (cc)
awaiting-Silent sync sync' s s' SyncResult.buffered b = λ c. absurd (cc)
awaiting-Silent sync sync' s s' SyncResult.needs_snapshot b = λ c. absurd (cc)
awaiting-Silent sync sync' s s' SyncResult.error b = λ c. absurd (cc)

handle_mutation-Silent :
    (sync : Sync) (s : WatchState) (m : Mutation) → Silent sync s (handle_mutation sync s m)
unfolding handle_mutation
handle_mutation-Silent sync s m = elim (Bool-cases (leb m.revision sync.revision)) [
  | inl e ↦ rw (e) (λ c. (refl, c))
  | inr e ↦ elim (Bool-cases sync.syncing) [
    | inl b ↦
        let out = report sync m SyncResult.buffered in
        simp (e, b)
          (awaiting-Silent sync out.1 s s out.0 (report-syncing sync m SyncResult.buffered ∙ b))
    | inr b ↦ elim (Bool-cases (ltb ((sync.revision + 1) % 2 ^ 64) m.revision)) [
      | inl g ↦
          let waiting = record sync { syncing = true } in
          let out = report waiting m SyncResult.needs_snapshot in
          simp (e, b, g)
            (awaiting-Silent sync out.1 s s out.0
              (report-syncing waiting m SyncResult.needs_snapshot))
      | inr g ↦ simp (e, b, g) tt
    ]
  ]
]

-- The service's result, if the replay ends.
abbrev pub SilentIf : Sync → WatchState → Option (SyncResult × Sync × WatchState) → Type 0
SilentIf sync s none = Unit
SilentIf sync s (some out) = Silent sync s out

replayed-Silent :
    (sync sync' : Sync) (s s' : WatchState) (waits : Bool)
    → sync'.syncing ≡ waits
    → Silent sync s ((if waits then SyncResult.needs_snapshot else SyncResult.changed), sync', s')
replayed-Silent sync sync' s s' true b = awaiting-Silent sync sync' s s' SyncResult.needs_snapshot b
replayed-Silent sync sync' s s' false b = tt

handle_snapshot-Silent :
    (sync : Sync) (s candidate : WatchState) (revision : ℕ)
    → SilentIf sync s (handle_snapshot sync candidate revision)
unfolding handle_snapshot
handle_snapshot-Silent sync s candidate revision =
    elim (Option-cases (replay_buffer (record sync { revision = revision }) candidate)) [
      | inl e ↦ rw (e, handle_snapshot) tt
      | inr ((sync', s', changed), e) ↦
          rw (e, handle_snapshot) (replayed-Silent sync sync' s s' sync'.syncing refl)
    ]

pub handle-Silent :
    (json : Json) (sync : Sync) (s : WatchState) (m : Message)
    → SilentIf sync s (handle json sync s m)
unfolding handle
handle-Silent json sync s m = elim (Bool-cases (same_type m.type MessageType.sync_response)) [
  | inl a ↦ elim (Result-cases (parse_snapshot json m s)) [
    | inl ((candidate, revision), p) ↦
        rw (a, p, handle) (handle_snapshot-Silent sync s candidate revision)
    | inr (x, p) ↦ rw (a, p, handle) (λ c. (refl, c))
  ]
  | inr a ↦
      elim (Bool-cases
        (same_type m.type MessageType.state_set || same_type m.type MessageType.state_patch)) [
          | inl b ↦ elim (Result-cases (parse_mutation json m)) [
            | inl (mutation, p) ↦ rw (a, b, p, handle) (handle_mutation-Silent sync s mutation)
            | inr (x, p) ↦ rw (a, b, p, handle) (λ c. (refl, c))
          ]
          | inr b ↦ rw (a, b) (λ c. (refl, c))
        ]
]
