-- ===== src/Cache/Storage/Samples.antt =====
-- Files that are kept in memory, for the runs in the Tests modules.
use cmf_watch_pro_2_os.Base.{
  ℕ, ◌≡◌, refl, ◌≢◌, sym, ap, ◌∙◌, arith, true, List, Option, some, none, if◌then◌else◌, span_equal,
  span_equal_iff, Bool-cases, inl, inr,
}
use cmf_watch_pro_2_os.Cache.Storage.{Files, Reading}
use cmf_watch_pro_2_os.Cache.Storage.Replaced.{whole, FilesLaws}

-- Files in memory: a reading for each name.
abbrev pub Memory : Type 0
Memory = List ℕ → Option Reading

abbrev put : List ℕ → Option Reading → Memory → Memory
put p r fs q = if span_equal p q then r else fs q

abbrev pub memory : Files Memory
memory = record {
  read = λ p fs. fs p;
  missing = λ p fs. true;
  open_write = λ p fs. some (put p none fs);
  write = λ p c fs. (true, put p (some (whole c)) fs);
  flush = λ p fs. (true, fs);
  close = λ p fs. (true, fs);
  remove = λ p fs. put p none fs;
  rename = λ p q fs. (true, put p none (put q (fs p) fs));
}

-- The same files in a world that holds something else beside them.
abbrev pub memory_beside : {P : Type 0} → Files (Memory × P)
memory_beside = record {
  read = λ p w. w.0 p;
  missing = λ p w. true;
  open_write = λ p w. some (put p none w.0, w.1);
  write = λ p c w. (true, (put p (some (whole c)) w.0, w.1));
  flush = λ p w. (true, w);
  close = λ p w. (true, w);
  remove = λ p w. (put p none w.0, w.1);
  rename = λ p q w. (true, (put p none (put q (w.0 p) w.0), w.1));
}

put_here : (p : List ℕ) (r : Option Reading) (fs : Memory) → put p r fs p ≡ r
put_here p r fs = rw ((span_equal_iff p p).1 refl) refl

put_apart : (p q : List ℕ) (r : Option Reading) (fs : Memory) → p ≢ q → put p r fs q ≡ fs q
put_apart p q r fs apart = elim (Bool-cases (span_equal p q)) [
  | inl e ↦ absurd (apart ((span_equal_iff p q).0 e))
  | inr e ↦ rw (e) refl
]

open_apart :
    (p q : List ℕ) (f : Memory) {f1 : Memory} → p ≢ q → some (put p none f) ≡ some f1 → f1 q ≡ f q
open_apart p q f {f1} apart e =
    ap (λ o. elim o [ none ↦ none | some g ↦ g q ]) (sym e) ∙ put_apart p q none f apart

pub memory-FilesLaws : FilesLaws memory
memory-FilesLaws = record {
  open_write_apart = λ p q f f1 apart e. (open_apart p q f apart e, refl);
  write_apart = λ p q c f apart. (put_apart p q (some (whole c)) f apart, refl);
  flush_apart = λ p q f apart. (refl, refl);
  close_apart = λ p q f apart. (refl, refl);
  remove_apart = λ p q f apart. (put_apart p q none f apart, refl);
  rename_fails = λ p q f apart e. absurd (ground arith);
  rename_moves = λ p q f apart e. put_apart p q none (put q (f p) f) apart ∙ put_here q (f p) f;
  written = λ p c f a b d. put_here p (some (whole c)) f;
}

beside_apart :
    {P : Type 0} (p q : List ℕ) (w : Memory × P) {w1 : Memory × P}
    → p ≢ q
    → some (put p none w.0, w.1) ≡ some w1
    → w1.0 q ≡ w.0 q
beside_apart p q w apart e =
    ap (λ o. elim o [ none ↦ none | some v ↦ v.0 q ]) (sym e) ∙ put_apart p q none w.0 apart

pub memory_beside-FilesLaws : {P : Type 0} → FilesLaws (memory_beside {P = P})
memory_beside-FilesLaws = record {
  open_write_apart = λ p q w w1 apart e. (beside_apart p q w apart e, refl);
  write_apart = λ p q c w apart. (put_apart p q (some (whole c)) w.0 apart, refl);
  flush_apart = λ p q w apart. (refl, refl);
  close_apart = λ p q w apart. (refl, refl);
  remove_apart = λ p q w apart. (put_apart p q none w.0 apart, refl);
  rename_fails = λ p q w apart e. absurd (ground arith);
  rename_moves =
      λ p q w apart e. put_apart p q none (put q (w.0 p) w.0) apart ∙ put_here q (w.0 p) w.0;
  written = λ p c w a b d. put_here p (some (whole c)) w.0;
}
