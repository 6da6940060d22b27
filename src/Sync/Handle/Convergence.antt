-- ===== src/Sync/Handle/Convergence.antt =====
-- The service against a host that counts its changes: what the watch has of the host is what
-- the host had at the revision of the service.
pub mod Host
pub mod Deliveries
mod Tests
use cmf_watch_pro_2_os.Base.{
  ℕ, zero, suc, ◌+◌, ◌%◌, ◌^◌, ◌<◌, ◌≡◌, refl, sym, ap, subst, ◌∙◌, ◌⊎◌, inl, inr, Bool, true,
  false, take, List, [], ◌∷◌, Option, none, some, arith, leb, ltb, ◌>>=◌, Bool-cases, Result-cases,
  Option-cases, Result, ok, err, if◌then◌else◌, length,
}
use cmf_watch_pro_2_os.Base.Int.{ℤ}
use cmf_watch_pro_2_os.Sync.Handle.Convergence.Host.{
  HostData, Shown, host_change, apply_change-Shown,
}
use cmf_watch_pro_2_os.State.{WatchState, Notification}
use cmf_watch_pro_2_os.Sync.Mutations.{Mutation, Change, apply_change}
use cmf_watch_pro_2_os.Sync.Buffer.{Sync, buffer_mutation, place, holds_revision, replay_buffer}
use cmf_watch_pro_2_os.Sync.Buffer.Pending.{Words, pending}
use cmf_watch_pro_2_os.Sync.Buffer.Replay.{drain, replay_buffer-Replayed}
use cmf_watch_pro_2_os.Sync.Handle.{
  SyncResult, report, handle_mutation, handle_snapshot, connected, disconnected,
}
use cmf_watch_pro_2_os.Sync.Handle.Service.{Placed, place-Placed, init-IsServing}
use cmf_watch_pro_2_os.Sync.Handle.Sequence.{handle_mutation-Sequenced}

-- What waits in the new list waited in the old one, or is the new mutation.
place-pending :
    (m : Mutation) (ms : List Mutation) {ms' : List Mutation}
    → place m ms ≡ ok ms'
    → (q : ℕ) (c : Change) → pending q ms' ≡ some c
    → (pending q ms ≡ some c) ⊎ ((q ≡ m.revision) × (c ≡ m.change))
unfolding place
place-pending m [] e q c g = absurd (ground arith)
place-pending m (n ∷ ms) {ms'} e q c g = elim (Result-cases (place m ms)) [
  | inl (rest, p) ↦
      let placed = place-Placed m ms p in ground (arith, place-pending m ms p q c, placed.gone q)
  | inr (x, p) ↦ ground arith
]

-- A host: its data at revision 0, and the change that leads to each later one.
module _ (origin : HostData) (log : ℕ → Change) where
  -- The host's data at a revision.
  abbrev pub at : ℕ → HostData
  at zero = origin
  at (suc r) = host_change (at r) (log (suc r))

  -- The watch has the host's data at the service's revision, and what waits are the host's changes.
  pub record Follows (sync : Sync) (s : WatchState) : Type 0 where
    pub words : Words sync.buffered
    pub agrees : (q : ℕ) (c : Change) → pending q sync.buffered ≡ some c → c ≡ log q
    pub current : Shown (at sync.revision) s

  Shown-at : {r r' : ℕ} {s s' : WatchState} → r' ≡ r → s' ≡ s → Shown (at r) s → Shown (at r') s'
  Shown-at p q h = rw (p, q) h

  -- The host's next change brings the watch from one revision to the next.
  next-Shown :
      (r : ℕ) (s : WatchState) (c : Change)
      → c ≡ log (r + 1)
      → Shown (at r) s
      → Shown (at (r + 1)) (apply_change s c)
  next-Shown r s c e h =
      let next : suc r ≡ r + 1 = omega arith in
      subst (λ k. c ≡ log k → Shown (at k) (apply_change s c)) next
        (λ is.
          subst (λ x. Shown (host_change (at r) x) (apply_change s c)) is
            (apply_change-Shown (at r) s c h))
        e

  drain-at :
      (n r : ℕ) (ms : List Mutation) (s : WatchState)
      → ((q : ℕ) (c : Change) → pending q ms ≡ some c → c ≡ log q)
      → Shown (at r) s
      → Shown (at (drain n r ms s).0) (drain n r ms s).1
  drain-at zero r ms s h e = e
  drain-at (suc n) r ms s h e = elim (Option-cases (pending (r + 1) ms)) [
    | inl p ↦ rw (drain, p) e
    | inr (c, p) ↦
        rw (drain, p)
          (drain-at n (r + 1) ms (apply_change s c) h (next-Shown r s c (h (r + 1) c p) e))
  ]

  -- What has been buffered.
  report-agrees :
      (sync : Sync) (m : Mutation) (done : SyncResult)
      → ((q : ℕ) (c : Change) → pending q sync.buffered ≡ some c → c ≡ log q)
      → m.change ≡ log m.revision
      → Words sync.buffered
      → m.revision < 2 ^ 64
      → Words (report sync m done).1.buffered
        × ((q : ℕ) (c : Change) → pending q (report sync m done).1.buffered ≡ some c → c ≡ log q)
  unfolding report buffer_mutation
  report-agrees sync m done h true_change words word =
      elim (Bool-cases (holds_revision m.revision sync.buffered)) [
        | inl b ↦ rw (b, report, buffer_mutation) (words, h)
        | inr b ↦ elim (Result-cases (place m sync.buffered)) [
          | inr (x, p) ↦ rw (b, p, report, buffer_mutation) (words, h)
          | inl (ms, p) ↦
              rw (b, p, report, buffer_mutation)
                (
                  (place-Placed m sync.buffered p).words words word,
                  λ q c g. elim (place-pending m sync.buffered p q c g) [
                    | inl old ↦ h q c old
                    | inr (e, d) ↦ d ∙ true_change ∙ ap log (sym e)
                  ],
                )
        ]
      ]

  -- The host's mutation that leads to its revision.
  abbrev pub IsTrue : Mutation → Type 0
  IsTrue m = (m.revision < 2 ^ 64) × (m.change ≡ log m.revision)

  handle_mutation-agrees :
      (sync : Sync) (s : WatchState) (m : Mutation)
      → IsTrue m
      → Follows sync s
      → Words (handle_mutation sync s m).1.buffered
        × ((q : ℕ) (c : Change)
            → pending q (handle_mutation sync s m).1.buffered ≡ some c
            → c ≡ log q)
  unfolding handle_mutation
  handle_mutation-agrees sync s m (word, true_change) h =
      elim (Bool-cases (leb m.revision sync.revision)) [
        | inl e ↦ rw (e) (h.words, h.agrees)
        | inr e ↦ elim (Bool-cases sync.syncing) [
          | inl b ↦
              simp (e, b)
                (report-agrees sync m SyncResult.buffered h.agrees true_change h.words word)
          | inr b ↦ elim (Bool-cases (ltb ((sync.revision + 1) % 2 ^ 64) m.revision)) [
            | inl g ↦
                simp (e, b, g)
                  (report-agrees (record sync { syncing = true }) m SyncResult.needs_snapshot
                    h.agrees true_change h.words word)
            | inr g ↦ simp (e, b, g) (h.words, h.agrees)
          ]
        ]
      ]

  pub handle_mutation-Follows :
      (sync : Sync) (s : WatchState) (m : Mutation)
      → IsTrue m
      → Follows sync s
      → let (result, sync', s') = handle_mutation sync s m in Follows sync' s'
  handle_mutation-Follows sync s m (word, true_change) h =
      let (words, agrees) = handle_mutation-agrees sync s m (word, true_change) h in
      record {
        words = words;
        agrees = agrees;
        current = elim ((handle_mutation-Sequenced sync s m word).step) [
          | inl (r, q) ↦ Shown-at r q h.current
          | inr (n, f, c, r, q) ↦
              Shown-at (r ∙ n) q
                (next-Shown sync.revision s m.change (true_change ∙ ap log n) h.current)
        ];
      }

  pub handle_snapshot-Follows :
      (sync : Sync) (s candidate : WatchState) (r : ℕ)
      → Shown (at r) candidate
      → Follows sync s
      → (out : SyncResult × Sync × WatchState) × (handle_snapshot sync candidate r ≡ some out)
        × Follows out.1 out.2
  unfolding handle_snapshot
  handle_snapshot-Follows sync s candidate r new h =
      let (out, e, p) = replay_buffer-Replayed (record sync { revision = r }) candidate h.words in
      (
        ((if out.0.syncing then SyncResult.needs_snapshot else SyncResult.changed), out.0, out.1),
        rw (e, handle_snapshot) refl,
        record {
          words = p.words;
          agrees = λ q c g. h.agrees q c (ground (arith, p.kept q));
          current =
              Shown-at (ap (λ x. x.0) p.drained) (ap (λ x. x.1) p.drained)
                (drain-at (suc (length sync.buffered)) r sync.buffered candidate h.agrees new);
        },
      )
