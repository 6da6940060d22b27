-- ===== src/Sync/Buffer/Replay.antt =====
-- The replay against its specification: the waiting changes are applied in the order of their
-- revisions, as long as the next one is there.
use cmf_watch_pro_2_os.Base.{
  ℕ, zero, suc, ◌+◌, ◌≤◌, ◌<◌, ◌≡◌, refl, sym, ◌∙◌, ◌↔◌, inl, inr, Bool, true, false, List, none,
  some, arith, leb, if◌then◌else◌, length, Option-cases,
}
use cmf_watch_pro_2_os.State.{WatchState}
use cmf_watch_pro_2_os.Sync.Mutations.{Mutation, apply_change}
use cmf_watch_pro_2_os.Sync.Buffer.{Sync, expire, take_next, has_gap, replay_loop, replay_buffer}
use cmf_watch_pro_2_os.Sync.Buffer.Pending.{
  pending, occupied_count, Words, Taken, occupied_count-le, pending-expire, Words-expire,
  Later-expire, occupied_count-expire, length-expire, take_next-none, take_next-Taken,
  has_gap-occupied,
}

-- Applying the waiting changes from revision `r` on, `n` of them at most.
abbrev pub drain : ℕ → ℕ → List Mutation → WatchState → ℕ × WatchState
drain zero r ms s = (r, s)
drain (suc n) r ms s = elim (pending (r + 1) ms) [
  | none ↦ (r, s)
  | some c ↦ drain n (r + 1) ms (apply_change s c)
]

-- Only what waits for later revisions counts.
drain_cong :
    (n r : ℕ) (ms ms' : List Mutation) (s : WatchState)
    → ((q : ℕ) → r < q → pending q ms ≡ pending q ms')
    → drain n r ms s ≡ drain n r ms' s
drain_cong zero r ms ms' s same = refl
drain_cong (suc n) r ms ms' s same = elim (Option-cases (pending (r + 1) ms')) [
  | inl e ↦ rw (drain, same (r + 1) (omega arith), e) refl
  | inr (c, e) ↦
      rw (drain, same (r + 1) (omega arith), e)
        (drain_cong n (r + 1) ms ms' (apply_change s c) (λ q h. same q (omega arith)))
]

-- What the replay of `ms` from revision `r` and state `s` comes to.
pub record Replayed (n r : ℕ) (ms : List Mutation) (s : WatchState) (out : Sync × WatchState × Bool)
    : Type 0 where
  pub drained : (out.0.revision, out.1) ≡ drain n r ms s
  pub stopped : pending (out.0.revision + 1) ms ≡ none
  pub forward : r ≤ out.0.revision
  pub kept :
      (q : ℕ) → pending q out.0.buffered ≡ (if leb q out.0.revision then none else pending q ms)
  pub settled : (out.0.syncing ≡ false) ↔ (occupied_count out.0.buffered ≡ 0)
  pub words : Words out.0.buffered
  pub same_length : length out.0.buffered ≡ length ms

module _ (sync : Sync) (s : WatchState) (w : Words sync.buffered) where
  open sync use {revision as r, buffered as ms}

  pending_slots : (q : ℕ) → r < q → pending q (expire r ms) ≡ pending q ms
  pending_slots q h = pending-expire q r ms ∙ ground arith

  replay_ends :
      (n : ℕ) (changed : Bool)
      → take_next r (expire r ms) ≡ none
      → Replayed
          (suc n)
          r
          ms
          s
          (record sync { syncing = has_gap r (expire r ms); buffered = expire r ms }, s, changed)
  replay_ends n changed e =
      let slots_words = Words-expire r ms w in
      let none_next : pending (r + 1) ms ≡ none =
        sym (pending_slots (r + 1) (omega arith))
        ∙ take_next-none r (expire r ms) slots_words (Later-expire r ms) e in
      record {
        drained = rw (drain, none_next) refl;
        stopped = none_next;
        forward = omega arith;
        kept = λ q. pending-expire q r ms;
        settled = has_gap-occupied r (expire r ms) slots_words (Later-expire r ms) e;
        words = slots_words;
        same_length = length-expire r ms;
      }

  replay_goes_on :
      (n : ℕ) {m : Mutation} {ms' : List Mutation} {out : Sync × WatchState × Bool}
      → Taken r (expire r ms) m ms'
      → Replayed n m.revision ms' (apply_change s m.change) out
      → Replayed (suc n) r ms s out
  replay_goes_on n {m} {ms'} {out} t p =
      let later : (q : ℕ) → r + 1 < q → pending q ms' ≡ pending q ms =
        λ q h. t.others q h ∙ pending_slots q (omega arith) in
      let next_pending : pending (r + 1) ms ≡ some m.change =
        sym (pending_slots (r + 1) (omega arith)) ∙ t.found in
      let ahead : r + 1 ≤ out.0.revision = omega (arith, p.forward, t.next) in
      record {
        drained =
            p.drained
            ∙ rw (drain, next_pending, t.next)
                (drain_cong n (r + 1) ms' ms (apply_change s m.change) later);
        stopped = sym (later (out.0.revision + 1) (omega arith)) ∙ p.stopped;
        forward = omega arith;
        kept = λ q. ground (arith, p.kept q, later q);
        settled = p.settled;
        words = p.words;
        same_length = p.same_length ∙ t.same_length ∙ length-expire r ms;
      }

abbrev ended : Sync → WatchState → Bool → Sync × WatchState × Bool
ended sync s changed =
    let slots = expire sync.revision sync.buffered in
    (record sync { syncing = has_gap sync.revision slots; buffered = slots }, s, changed)

replay_loop-none :
    (n : ℕ) (sync : Sync) (s : WatchState) (changed : Bool)
    → take_next sync.revision (expire sync.revision sync.buffered) ≡ none
    → replay_loop (suc n) sync s changed ≡ some (ended sync s changed)
unfolding replay_loop
replay_loop-none n sync s changed e = rw (e, replay_loop) refl

replay_loop-some :
    (n : ℕ) (sync : Sync) (s : WatchState) (changed : Bool) {m : Mutation} {ms' : List Mutation}
    → take_next sync.revision (expire sync.revision sync.buffered) ≡ some (m, ms')
    → replay_loop (suc n) sync s changed
      ≡ replay_loop n
          (record sync { revision = m.revision; buffered = ms' })
          (apply_change s m.change)
          true
unfolding replay_loop
replay_loop-some n sync s changed e = rw (e, replay_loop) refl

replay_loop-Replayed :
    (n : ℕ) (sync : Sync) (s : WatchState) (changed : Bool)
    → Words sync.buffered
    → occupied_count sync.buffered < n
    → (out : Sync × WatchState × Bool) × (replay_loop n sync s changed ≡ some out)
      × Replayed n sync.revision sync.buffered s out
replay_loop-Replayed zero sync s changed w h = absurd (omega arith)
replay_loop-Replayed (suc n) sync s changed w h =
    elim (Option-cases (take_next sync.revision (expire sync.revision sync.buffered))) [
      | inl e ↦ (
        ended sync s changed,
        replay_loop-none n sync s changed e,
        replay_ends sync s w n changed e,
      )
      | inr ((m, ms'), e) ↦
          let t =
            take_next-Taken sync.revision (expire sync.revision sync.buffered)
              (Words-expire sync.revision sync.buffered w)
              (Later-expire sync.revision sync.buffered) e in
          let (out, run, p) =
            replay_loop-Replayed n (record sync { revision = m.revision; buffered = ms' })
              (apply_change s m.change) true t.words
              (omega (arith, t.fewer, occupied_count-expire sync.revision sync.buffered)) in
          (out, replay_loop-some n sync s changed e ∙ run, replay_goes_on sync s w n t p)
    ]

-- The replay ends, and it applies exactly the waiting changes `r + 1`, `r + 2`, … in this order up to
-- the first revision that nothing waits for. What it leaves are the changes for later revisions,
-- untouched, and the service counts as synchronised exactly when none is left.
pub replay_buffer-Replayed :
    (sync : Sync) (s : WatchState)
    → Words sync.buffered
    → (out : Sync × WatchState × Bool) × (replay_buffer sync s ≡ some out)
      × Replayed (suc (length sync.buffered)) sync.revision sync.buffered s out
unfolding replay_buffer
replay_buffer-Replayed sync s w =
    replay_loop-Replayed (suc (length sync.buffered)) sync s false w
      (omega (arith, occupied_count-le sync.buffered))
