-- ===== src/Sync/Handle/Sequence.antt =====
-- How the service orders single mutations: `watch_sync_handle` after `parse_mutation`.
use cmf_watch_pro_2_os.Base.{
  ℕ, ◌+◌, ◌^◌, ◌<◌, ◌≡◌, ◌⊎◌, inl, inr, true, false, List, [], ◌∷◌, arith,
}
use cmf_watch_pro_2_os.State.{WatchState}
use cmf_watch_pro_2_os.Sync.Mutations.{Mutation, apply_change}
use cmf_watch_pro_2_os.Sync.Buffer.{Sync, buffer_mutation}
use cmf_watch_pro_2_os.Sync.Buffer.Pending.{Words}
use cmf_watch_pro_2_os.Sync.Handle.{SyncResult, report, handle_mutation}

-- The mutations that arrive, one after the other.
abbrev pub receive : List Mutation → Sync → WatchState → Sync × WatchState
receive [] sync s = (sync, s)
receive (m ∷ ms) sync s = let (result, sync', s') = handle_mutation sync s m in receive ms sync' s'

-- Some of the mutations of the list, with the revisions that follow on each other, lead from one
-- revision and state to another.
pub data Chain : List Mutation → ℕ → WatchState → ℕ → WatchState → Type 0 where
  stop : {r : ℕ} {s : WatchState} → Chain [] r s r s
  skip :
      {m : Mutation} {ms : List Mutation} {r r' : ℕ} {s s' : WatchState}
      → Chain ms r s r' s'
      → Chain (m ∷ ms) r s r' s'
  apply :
      {m : Mutation} {ms : List Mutation} {r r' : ℕ} {s s' : WatchState}
      → m.revision ≡ r + 1
      → Chain ms m.revision (apply_change s m.change) r' s'
      → Chain (m ∷ ms) r s r' s'

-- One mutation is passed over or is the next one.
pub record Sequenced (sync : Sync) (s : WatchState) (m : Mutation)
    (out : SyncResult × Sync × WatchState) : Type 0 where
  pub step :
      ((out.1.revision ≡ sync.revision) × (out.2 ≡ s))
      ⊎ ((m.revision ≡ sync.revision + 1)
          × (sync.syncing ≡ false)
          × (out.0 ≡ SyncResult.changed)
          × (out.1.revision ≡ m.revision)
          × (out.2 ≡ apply_change s m.change))

report-revision :
    (sync : Sync) (m : Mutation) (done : SyncResult)
    → (report sync m done).1.revision ≡ sync.revision
unfolding report buffer_mutation
report-revision sync m done = ground arith

pub handle_mutation-Sequenced :
    (sync : Sync) (s : WatchState) (m : Mutation)
    → m.revision < 2 ^ 64
    → Sequenced sync s m (handle_mutation sync s m)
unfolding handle_mutation
handle_mutation-Sequenced sync s m h =
    let waiting = report-revision sync m SyncResult.buffered in
    let gap = report-revision (record sync { syncing = true }) m SyncResult.needs_snapshot in
    record { step = ground (arith, waiting, gap) }

at :
    {ms : List Mutation} {r r1 r' : ℕ} {s s1 s' : WatchState}
    → r1 ≡ r
    → s1 ≡ s
    → Chain ms r1 s1 r' s'
    → Chain ms r s r' s'
at p q c = rw⁻¹ (p, q) c

-- Whatever mutations arrive, in whatever order and however often: what is applied to the state is a
-- part of them, in the order of arrival, each with the revision that follows on the one before, and
-- the service's revision at the end is that of the last one applied.
pub receive-Chain :
    (ms : List Mutation) (sync : Sync) (s : WatchState)
    → Words ms
    → Chain ms sync.revision s (receive ms sync s).0.revision (receive ms sync s).1
receive-Chain [] sync s w = stop
receive-Chain (m ∷ ms) sync s w =
    let (result, sync', s') = handle_mutation sync s m in
    let rest = receive-Chain ms sync' s' w.1 in
    elim ((handle_mutation-Sequenced sync s m (w.0)).step) [
      | inl (r, q) ↦ skip (at r q rest)
      | inr (n, f, c, r, q) ↦ apply n (at r q rest)
    ]
