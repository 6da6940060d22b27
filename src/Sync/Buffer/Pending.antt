-- ===== src/Sync/Buffer/Pending.antt =====
-- The buffer as a finite map from revisions to changes.
use cmf_watch_pro_2_os.Base.{
  ℕ, suc, ◌+◌, ◌^◌, ◌≤◌, ◌<◌, ◌≡◌, refl, ap, ◌↔◌, inl, inr, true, false, ◌&&◌, List, [], ◌∷◌,
  Option, none, some, arith, leb, ◌==◌, if◌then◌else◌, length, Option-cases,
}
use cmf_watch_pro_2_os.Sync.Mutations.{Mutation, Change}
use cmf_watch_pro_2_os.Sync.Buffer.{expire, take_next, has_gap}

-- The change that waits for a revision; of several the last slot's.
abbrev pub pending : ℕ → List Mutation → Option Change
pending q [] = none
pending q (m ∷ ms) = elim (pending q ms) [
  | some c ↦ some c
  | none ↦ if m.occupied && m.revision == q then some m.change else none
]

-- The slots in use.
abbrev pub occupied_count : List Mutation → ℕ
occupied_count [] = 0
occupied_count (m ∷ ms) = (if m.occupied then 1 else 0) + occupied_count ms

-- Every revision is a uint64_t.
abbrev pub Words : List Mutation → Type 0
Words [] = Unit {0}
Words (m ∷ ms) = (m.revision < 2 ^ 64) × Words ms

-- Every revision in use is later than `r`.
abbrev pub Later : ℕ → List Mutation → Type 0
Later r [] = Unit {0}
Later r (m ∷ ms) = (m.occupied ≡ true → r < m.revision) × Later r ms

pub occupied_count-le : (ms : List Mutation) → occupied_count ms ≤ length ms
occupied_count-le [] = omega arith
occupied_count-le (m ∷ ms) = ground (arith, occupied_count-le ms)

pub pending-expire :
    (q r : ℕ) (ms : List Mutation)
    → pending q (expire r ms) ≡ (if leb q r then none else pending q ms)
unfolding expire
pending-expire q r [] = ground arith
pending-expire q r (m ∷ ms) = ground (arith, pending-expire q r ms)

pub Words-expire : (r : ℕ) (ms : List Mutation) → Words ms → Words (expire r ms)
unfolding expire
Words-expire r [] w = tt
Words-expire r (m ∷ ms) w = ground (arith, Words-expire r ms w.1)

pub Later-expire : (r : ℕ) (ms : List Mutation) → Later r (expire r ms)
unfolding expire
Later-expire r [] = tt
Later-expire r (m ∷ ms) = ground (arith, Later-expire r ms)

pub occupied_count-expire :
    (r : ℕ) (ms : List Mutation) → occupied_count (expire r ms) ≤ occupied_count ms
unfolding expire
occupied_count-expire r [] = omega arith
occupied_count-expire r (m ∷ ms) = ground (arith, occupied_count-expire r ms)

pub length-expire : (r : ℕ) (ms : List Mutation) → length (expire r ms) ≡ length ms
unfolding expire
length-expire r [] = refl
length-expire r (m ∷ ms) = ap suc (length-expire r ms)

-- `take_next` finds nothing exactly where no change waits for the next revision.
pub take_next-none :
    (r : ℕ) (ms : List Mutation)
    → Words ms
    → Later r ms
    → take_next r ms ≡ none
    → pending (r + 1) ms ≡ none
unfolding take_next
take_next-none r [] w l e = refl
take_next-none r (m ∷ ms) w l e = elim (Option-cases (take_next r ms)) [
  | inl n ↦ ground (arith, take_next-none r ms w.1 l.1 n)
  | inr (x, s) ↦ absurd (ground arith)
]

-- Where it finds a slot, that holds the change which waits for the next revision, and the other
-- revisions stay as they were.
pub record Taken (r : ℕ) (ms : List Mutation) (m : Mutation) (ms' : List Mutation) : Type 0 where
  pub next : m.revision ≡ r + 1
  pub found : pending (r + 1) ms ≡ some m.change
  pub others : (q : ℕ) → r + 1 < q → pending q ms' ≡ pending q ms
  pub fewer : suc (occupied_count ms') ≡ occupied_count ms
  pub words : Words ms'
  pub same_length : length ms' ≡ length ms

Taken-here :
    (r : ℕ) (x : Mutation) (ms : List Mutation)
    → Words (x ∷ ms)
    → Later r (x ∷ ms)
    → take_next r ms ≡ none
    → x.occupied ≡ true
    → x.revision ≡ r + 1
    → Taken r (x ∷ ms) x (record x { occupied = false } ∷ ms)
Taken-here r x ms w l n used e = record {
  next = e;
  found = ground (arith, take_next-none r ms w.1 l.1 n);
  others = λ q h. ground arith;
  fewer = ground arith;
  words = w;
  same_length = refl;
}

Taken-later :
    (r : ℕ) (x : Mutation) {ms : List Mutation} {m : Mutation} {ms' : List Mutation}
    → Words (x ∷ ms)
    → Taken r ms m ms'
    → Taken r (x ∷ ms) m (x ∷ ms')
Taken-later r x w t = record {
  next = t.next;
  found = ground arith;
  others = λ q h. ground (arith, t.others q h);
  fewer = ground arith;
  words = (w.0, t.words);
  same_length = ap suc t.same_length;
}

pub take_next-Taken :
    (r : ℕ) (ms : List Mutation) {m : Mutation} {ms' : List Mutation}
    → Words ms
    → Later r ms
    → take_next r ms ≡ some (m, ms')
    → Taken r ms m ms'
unfolding take_next
take_next-Taken r [] w l e = absurd (ground arith)
take_next-Taken r (x ∷ ms) {m} {ms'} w l e = elim (Option-cases (take_next r ms)) [
  | inl n ↦
      let same : m ≡ x = ground arith in
      let rest : ms' ≡ record x { occupied = false } ∷ ms = ground arith in
      rw (same, rest) (Taken-here r x ms w l n (ground arith) (ground arith))
  | inr ((y, ys), s) ↦
      let same : m ≡ y = ground arith in
      let rest : ms' ≡ x ∷ ys = ground arith in
      rw (same, rest) (Taken-later r x w (take_next-Taken r ms w.1 l.1 s))
]

-- With no slot for the next revision there is a gap exactly where a slot is in use.
pub has_gap-occupied :
    (r : ℕ) (ms : List Mutation)
    → Words ms
    → Later r ms
    → take_next r ms ≡ none
    → (has_gap r ms ≡ false) ↔ (occupied_count ms ≡ 0)
unfolding has_gap take_next
has_gap-occupied r [] w l e = ground arith
has_gap-occupied r (m ∷ ms) w l e = elim (Option-cases (take_next r ms)) [
  | inl n ↦ ground (arith, has_gap-occupied r ms w.1 l.1 n)
  | inr (x, s) ↦ absurd (ground arith)
]
