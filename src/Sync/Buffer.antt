-- ===== src/Sync/Buffer.antt =====
-- The buffer of mutations that wait for a snapshot: `buffer_mutation` and `replay_buffer` of
-- watch_sync.c.
pub mod Pending
pub mod Replay
use cmf_watch_pro_2_os.Base.{
  ℕ, zero, suc, ◌+◌, ◌%◌, ◌^◌, Bool, true, false, not, ◌&&◌, ◌||◌, List, [], ◌∷◌, Option, none,
  some, ltb, leb, ◌==◌, if◌then◌else◌, length, replicate, Result, ok, err, Errno, enospc,
}
use cmf_watch_pro_2_os.State.{WatchState}
use cmf_watch_pro_2_os.Sync.Mutations.{Mutation, Change, blank_mutation, apply_change}

abbrev pub buffer_capacity : ℕ
buffer_capacity = 16

abbrev pub empty_buffer : List Mutation
empty_buffer = replicate buffer_capacity blank_mutation

-- `struct watch_sync`
pub record Sync : Type 0 where
  pub revision : ℕ
  pub syncing : Bool
  pub buffered : List Mutation

-- The first loop: the revision is buffered already.
unfoldable pub holds_revision : ℕ → List Mutation → Bool
holds_revision r [] = false
holds_revision r (m ∷ ms) = m.occupied && m.revision == r || holds_revision r ms

-- The second loop: the first slot that is free takes the mutation.
unfoldable pub place : Mutation → List Mutation → Result Errno (List Mutation)
place new [] = err enospc
place new (m ∷ ms) =
    if m.occupied
    then (elim (place new ms) [ err e ↦ err e | ok ms' ↦ ok (m ∷ ms') ])
    else ok (new ∷ ms)

unfoldable pub buffer_mutation : Sync → Mutation → Result Errno Sync
unfolding holds_revision place
buffer_mutation sync new =
    if holds_revision new.revision sync.buffered then ok sync else elim (place new sync.buffered) [
      | err e ↦ err e
      | ok slots ↦ ok (record sync { buffered = slots })
    ]

-- The loop over the slots in `replay_buffer` does three things, a function for each: it frees the
-- slots whose revision is not new, …
unfoldable pub expire : ℕ → List Mutation → List Mutation
expire r [] = []
expire r (m ∷ ms) =
    (if m.occupied && leb m.revision r then record m { occupied = false } else m) ∷ expire r ms

-- … finds the last slot with the revision that comes next (here with the slots after it is freed), …
unfoldable pub take_next : ℕ → List Mutation → Option (Mutation × List Mutation)
take_next r [] = none
take_next r (m ∷ ms) = elim (take_next r ms) [
  | some (next, ms') ↦ some (next, m ∷ ms')
  | none ↦
      if m.occupied && not (leb m.revision r) && m.revision == (r + 1) % 2 ^ 64
      then some (m, record m { occupied = false } ∷ ms)
      else none
]

-- … and notes whether a later revision is there.
unfoldable pub has_gap : ℕ → List Mutation → Bool
has_gap r [] = false
has_gap r (m ∷ ms) =
    m.occupied && not (leb m.revision r) && not (m.revision == (r + 1) % 2 ^ 64) || has_gap r ms

-- `while (true)` on fuel; `none` means that the fuel ran out.
unfoldable pub replay_loop : ℕ → Sync → WatchState → Bool → Option (Sync × WatchState × Bool)
unfolding expire take_next has_gap
replay_loop zero sync s changed = none
replay_loop (suc fuel) sync s changed =
    let slots = expire sync.revision sync.buffered in
    elim (take_next sync.revision slots) [
      | none ↦
          some (record sync { syncing = has_gap sync.revision slots; buffered = slots }, s, changed)
      | some (next, slots') ↦
          replay_loop fuel (record sync { revision = next.revision; buffered = slots' })
            (apply_change s next.change) true
    ]

-- Each round but the last frees a slot.
unfoldable pub replay_buffer : Sync → WatchState → Option (Sync × WatchState × Bool)
replay_buffer sync s = replay_loop (suc (length sync.buffered)) sync s false
