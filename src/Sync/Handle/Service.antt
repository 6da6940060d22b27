-- ===== src/Sync/Handle/Service.antt =====
-- The invariant of the synchronisation service over `watch_sync_handle`.
use cmf_watch_pro_2_os.Base.{
  ℕ, zero, suc, ◌+◌, ◌%◌, ◌^◌, ◌<◌, ◌≡◌, ◌≢◌, refl, ap, ◌∙◌, ◌⊎◌, inl, inr, Bool, true, false, List,
  [], ◌∷◌, none, some, arith, ok, ◌||◌, ltb, leb, if◌then◌else◌, length, Result-cases, Bool-cases,
  Option-cases,
}
use cmf_watch_pro_2_os.Json.{Json}
use cmf_watch_pro_2_os.State.{WatchState}
use cmf_watch_pro_2_os.Protocol.Messages.{Message, MessageType, same_type}
use cmf_watch_pro_2_os.Sync.Snapshots.{parse_snapshot}
use cmf_watch_pro_2_os.Sync.Snapshots.Candidate.{Fills, Fills-trans, parse_snapshot-IsSafe}
use cmf_watch_pro_2_os.Sync.Mutations.{Mutation, Change, apply_change, parse_mutation}
use cmf_watch_pro_2_os.Sync.Mutations.Sound.{
  IsSound, kept, apply_change-Fills, parse_mutation-IsSound,
}
use cmf_watch_pro_2_os.Sync.Buffer.{Sync, buffer_mutation, place, holds_revision, buffer_capacity}
use cmf_watch_pro_2_os.Sync.Buffer.Pending.{Words, pending, occupied_count}
use cmf_watch_pro_2_os.Sync.Buffer.Replay.{drain, replay_buffer-Replayed}
use cmf_watch_pro_2_os.Sync.Handle.{
  SyncResult, init, report, handle_mutation, handle_snapshot, handle,
}

-- Every waiting change is sound.
abbrev pub Sound : List Mutation → Type 0
Sound ms = (q : ℕ) (c : Change) → pending q ms ≡ some c → IsSound c

pub record IsServing (sync : Sync) : Type 0 where
  pub words : Words sync.buffered
  pub sound : Sound sync.buffered
  pub slots : length sync.buffered ≡ buffer_capacity
  pub idle : sync.syncing ≡ false → occupied_count sync.buffered ≡ 0

drain-Fills :
    (n r : ℕ) (ms : List Mutation) (s : WatchState) → Sound ms → Fills s (drain n r ms s).1
drain-Fills zero r ms s h = record { owned = refl; safe = λ p. p }
drain-Fills (suc n) r ms s h = elim (Option-cases (pending (r + 1) ms)) [
  | inl e ↦ rw (drain, e) (record { owned = refl; safe = λ p. p })
  | inr (c, e) ↦
      rw (drain, e)
        (Fills-trans (apply_change-Fills s c (h (r + 1) c e))
          (drain-Fills n (r + 1) ms (apply_change s c) h))
]

-- Placing a mutation.
pub record Placed (m : Mutation) (ms ms' : List Mutation) : Type 0 where
  pub words : Words ms → m.revision < 2 ^ 64 → Words ms'
  length : length ms' ≡ length ms
  waiting : (q : ℕ) (c : Change) → pending q ms' ≡ some c → (pending q ms ≡ some c) ⊎ (c ≡ m.change)
  pub gone : (q : ℕ) → pending q ms' ≡ none → pending q ms ≡ none

pub place-Placed :
    (m : Mutation) (ms : List Mutation) {ms' : List Mutation}
    → place m ms ≡ ok ms'
    → Placed m ms ms'
unfolding place
place-Placed m [] e = absurd (ground arith)
place-Placed m (n ∷ ms) {ms'} e = elim (Result-cases (place m ms)) [
  | inl (rest, q) ↦
      let p = place-Placed m ms q in
      record {
        words = ground (arith, p.words);
        length = ground (arith, p.length);
        waiting = λ r c g. ground (arith, p.waiting r c, p.gone r);
        gone = λ r g. ground (arith, p.gone r);
      }
  | inr (x, q) ↦ record {
    words = ground arith;
    length = ground arith;
    waiting = λ r c g. ground arith;
    gone = λ r g. ground arith;
  }
]

buffer_mutation-Placed :
    (sync : Sync) (m : Mutation) {sync' : Sync}
    → buffer_mutation sync m ≡ ok sync'
    → (sync' ≡ sync)
      ⊎ ((ms : List Mutation) × Placed m sync.buffered ms × (sync' ≡ record sync { buffered = ms }))
unfolding buffer_mutation
buffer_mutation-Placed sync m {sync'} e = elim (Result-cases (place m sync.buffered)) [
  | inl (ms, q) ↦ elim (Bool-cases (holds_revision m.revision sync.buffered)) [
    | inl b ↦ inl (ground arith)
    | inr b ↦ inr (ms, place-Placed m sync.buffered q, ground arith)
  ]
  | inr (x, q) ↦ inl (ground arith)
]

buffer_mutation-IsServing :
    (sync : Sync) (m : Mutation)
    → IsServing sync
    → sync.syncing ≡ true
    → m.revision < 2 ^ 64
    → IsSound m.change
    → {sync' : Sync} → buffer_mutation sync m ≡ ok sync'
    → IsServing sync'
buffer_mutation-IsServing sync m h b w i {sync'} e = elim (buffer_mutation-Placed sync m e) [
  | inl q ↦ rw (q) h
  | inr (ms, p, q) ↦ rw (q) (record {
    words = p.words h.words w;
    slots = p.length ∙ h.slots;
    idle = ground arith;
    sound = λ r c g. elim (p.waiting r c g) [ inl a ↦ h.sound r c a | inr a ↦ rw (a) i ];
  })
]

report-IsServing :
    (sync : Sync) (m : Mutation) (done : SyncResult)
    → IsServing sync
    → sync.syncing ≡ true
    → m.revision < 2 ^ 64
    → IsSound m.change
    → IsServing (report sync m done).1
unfolding report
report-IsServing sync m done h b w i = elim (Result-cases (buffer_mutation sync m)) [
  | inl (sync', q) ↦ rw (q, report) (buffer_mutation-IsServing sync m h b w i q)
  | inr (x, q) ↦ rw (q, report) h
]

pub waiting : (sync : Sync) → IsServing sync → IsServing (record sync { syncing = true })
waiting sync h = record { words = h.words; sound = h.sound; slots = h.slots; idle = ground arith }

-- What one step leaves behind.
pub record Served (s : WatchState) (out : SyncResult × Sync × WatchState) : Type 0 where
  pub serving : IsServing out.1
  pub fills : Fills s out.2
  pub failed : out.0 ≡ SyncResult.error → out.2 ≡ s

handle_mutation-Served :
    (sync : Sync) (s : WatchState) (m : Mutation)
    → IsServing sync
    → m.revision < 2 ^ 64
    → IsSound m.change
    → Served s (handle_mutation sync s m)
unfolding handle_mutation
handle_mutation-Served sync s m h w i = elim (Bool-cases (leb m.revision sync.revision)) [
  | inl e ↦ rw (e) (record { serving = h; fills = kept s; failed = λ x. refl })
  | inr e ↦ elim (Bool-cases sync.syncing) [
    | inl b ↦
        simp (e, b)
          (record {
            serving = report-IsServing sync m SyncResult.buffered h b w i;
            fills = kept s;
            failed = λ x. refl;
          })
    | inr b ↦ elim (Bool-cases (ltb ((sync.revision + 1) % 2 ^ 64) m.revision)) [
      | inl g ↦
          simp (e, b, g)
            (record {
              serving =
                  report-IsServing (record sync { syncing = true }) m SyncResult.needs_snapshot
                    (waiting sync h) refl w i;
              fills = kept s;
              failed = λ x. refl;
            })
      | inr g ↦
          simp (e, b, g)
            (record {
              serving = record {
                words = h.words;
                sound = h.sound;
                slots = h.slots;
                idle = λ x. h.idle b;
              };
              fills = apply_change-Fills s m.change i;
              failed = λ x. absurd (ground arith);
            })
    ]
  ]
]

status :
    (b : Bool) → (if b then SyncResult.needs_snapshot else SyncResult.changed) ≢ SyncResult.error
status true = ground arith
status false = ground arith

module _ (json : Json) where
  handle_snapshot-Served :
      (sync : Sync) (s candidate : WatchState) (revision : ℕ)
      → IsServing sync
      → Fills s candidate
      → (out : SyncResult × Sync × WatchState) × (handle_snapshot sync candidate revision
          ≡ some out)
        × Served s out
  unfolding handle_snapshot
  handle_snapshot-Served sync s candidate revision h f =
      let (out, e, p) =
        replay_buffer-Replayed (record sync { revision = revision }) candidate h.words in
      (
        ((if out.0.syncing then SyncResult.needs_snapshot else SyncResult.changed), out.0, out.1),
        rw (e, handle_snapshot) refl,
        record {
          serving = record {
            words = p.words;
            sound = λ q c g. h.sound q c (ground (arith, p.kept q));
            slots = p.same_length ∙ h.slots;
            idle = p.settled.0;
          };
          fills = rw (ap (λ x. x.1) p.drained) (
              Fills-trans f (
                drain-Fills (suc (length sync.buffered)) revision sync.buffered candidate h.sound));
          failed = λ g. absurd (status out.0.syncing g);
        },
      )

  handle-snapshot_message :
      (sync : Sync) (s : WatchState) (message : Message)
      → IsServing sync
      → same_type message.type MessageType.sync_response ≡ true
      → (out : SyncResult × Sync × WatchState) × (handle json sync s message ≡ some out)
        × Served s out
  unfolding handle
  handle-snapshot_message sync s message h b = elim (Result-cases (parse_snapshot json message s)) [
    | inr (x, q) ↦ (
      (SyncResult.error, sync, s),
      rw (b, q, handle) refl,
      record { serving = h; fills = kept s; failed = λ g. refl },
    )
    | inl ((candidate, revision), q) ↦
        let (owned, safe, word) = parse_snapshot-IsSafe json message s candidate revision q in
        let (out, e, p) =
          handle_snapshot-Served sync s candidate revision h
            (record { owned = owned; safe = λ x. safe }) in
        (out, rw (b, q, handle) e, p)
  ]

  handle-mutation_message :
      (sync : Sync) (s : WatchState) (message : Message)
      → IsServing sync
      → same_type message.type MessageType.sync_response ≡ false
      → (out : SyncResult × Sync × WatchState) × (handle json sync s message ≡ some out)
        × Served s out
  unfolding handle
  handle-mutation_message sync s message h b =
      elim (Bool-cases (
        same_type message.type MessageType.state_set
        || same_type message.type MessageType.state_patch)) [
          | inr c ↦ (
            (SyncResult.unchanged, sync, s),
            rw (b, c, handle) refl,
            record { serving = h; fills = kept s; failed = λ g. refl },
          )
          | inl c ↦ elim (Result-cases (parse_mutation json message)) [
            | inr (x, q) ↦ (
              (SyncResult.error, sync, s),
              rw (b, c, q, handle) refl,
              record { serving = h; fills = kept s; failed = λ g. refl },
            )
            | inl (m, q) ↦
                let (word, sound) = parse_mutation-IsSound json message q in
                (
                  handle_mutation sync s m,
                  rw (b, c, q, handle) refl,
                  handle_mutation-Served sync s m h word sound,
                )
          ]
        ]

  -- Whatever message arrives, `watch_sync_handle` returns, provided the buffer has its 16 slots,
  -- uint64_t revisions and browsable notifications whose texts fit, and is empty unless a snapshot is
  -- awaited. These conditions hold again afterwards. What the watch owns is unchanged, a state that is
  -- safe to show stays so, and a message that is refused changes nothing of the state.
  pub handle-Served :
      (sync : Sync) (s : WatchState) (message : Message)
      → IsServing sync
      → (out : SyncResult × Sync × WatchState) × (handle json sync s message ≡ some out)
        × Served s out
  handle-Served sync s message h =
      elim (Bool-cases (same_type message.type MessageType.sync_response)) [
        | inl b ↦ handle-snapshot_message sync s message h b
        | inr b ↦ handle-mutation_message sync s message h b
      ]

pub init-IsServing : IsServing init
init-IsServing = record {
  words = ground arith;
  sound = λ q c g. absurd (ground arith);
  slots = refl;
  idle = λ x. refl;
}
