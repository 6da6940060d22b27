-- ===== src/Cache/Storage/Replaced.antt =====
-- Saving replaces the record as a whole or not at all.
use cmf_watch_pro_2_os.Base.{
  ℕ, ◌≡◌, refl, ap, ◌∙◌, ◌≢◌, inl, inr, Bool, true, false, not, ◌||◌, List, Option, some, arith,
  leb, ◌==◌, if◌then◌else◌, length, length-append, codes, Result, ok, err, Errno, eio, Bool-cases,
  Option-cases,
}
use cmf_watch_pro_2_os.Cache.Record.{CacheRecord, Layout, valid}
use cmf_watch_pro_2_os.Cache.Storage.{
  Files, Reading, cache_path, temporary, accept, load, save, write_out,
}

-- A file that was written whole.
abbrev pub whole : CacheRecord → Reading
whole c = record { candidate = c; complete = true; trailing = false; closed = true }

-- What the calls promise. A call on one file leaves the others alone, a successful `rename` puts the
-- old file in the place of the new one, a failed one changes no other file, and what was written,
-- flushed and closed without an error is read back.
pub record FilesLaws {F : Type 0} (files : Files F) : Type 0 where
  pub open_write_apart :
      (p q : List ℕ) (f f1 : F)
      → p ≢ q
      → files.open_write p f ≡ some f1
      → (files.read q f1 ≡ files.read q f) × (files.missing q f1 ≡ files.missing q f)
  pub write_apart :
      (p q : List ℕ) (c : CacheRecord) (f : F)
      → p ≢ q
      → (files.read q (files.write p c f).1 ≡ files.read q f)
        × (files.missing q (files.write p c f).1 ≡ files.missing q f)
  pub flush_apart :
      (p q : List ℕ) (f : F)
      → p ≢ q
      → (files.read q (files.flush p f).1 ≡ files.read q f)
        × (files.missing q (files.flush p f).1 ≡ files.missing q f)
  pub close_apart :
      (p q : List ℕ) (f : F)
      → p ≢ q
      → (files.read q (files.close p f).1 ≡ files.read q f)
        × (files.missing q (files.close p f).1 ≡ files.missing q f)
  pub remove_apart :
      (p q : List ℕ) (f : F)
      → p ≢ q
      → (files.read q (files.remove p f) ≡ files.read q f)
        × (files.missing q (files.remove p f) ≡ files.missing q f)
  pub rename_fails :
      (p q : List ℕ) (f : F)
      → p ≢ q
      → (files.rename p q f).0 ≡ false
      → (files.read q (files.rename p q f).1 ≡ files.read q f)
        × (files.missing q (files.rename p q f).1 ≡ files.missing q f)
  pub rename_moves :
      (p q : List ℕ) (f : F)
      → p ≢ q
      → (files.rename p q f).0 ≡ true
      → files.read q (files.rename p q f).1 ≡ files.read p f
  pub written :
      (p : List ℕ) (c : CacheRecord) (f : F)
      → (files.write p c f).0 ≡ true
      → (files.flush p (files.write p c f).1).0 ≡ true
      → (files.close p (files.flush p (files.write p c f).1).1).0 ≡ true
      → files.read p (files.close p (files.flush p (files.write p c f).1).1).1 ≡ some (whole c)

temporary-apart : (path : List ℕ) → temporary path ≢ path
temporary-apart path e = omega (arith, length-append path (codes ".tmp"), ap length e)

module _ {F : Type 0} (layout : Layout) (files : Files F) (laws : FilesLaws files) where
  -- What is seen of one file.
  abbrev Same : List ℕ → F → F → Type 0
  Same q f f' = (files.read q f' ≡ files.read q f) × (files.missing q f' ≡ files.missing q f)

  Same-trans : (q : List ℕ) (f g h : F) → Same q f g → Same q g h → Same q f h
  Same-trans q f g h a b = (b.0 ∙ a.0, b.1 ∙ a.1)

  -- The file is as before or has the record.
  abbrev Outcome : List ℕ → CacheRecord → F → Result Errno (Unit {0}) × F → Type 0
  Outcome path c f (ok _, f') = files.read path f' ≡ some (whole c)
  Outcome path c f (err e, f') = Same path f f'

  conclude :
      (path : List ℕ) (c : CacheRecord) (f f1 f2 f3 : F) (a b d r : Bool)
      → Same path f f1
      → (r ≡ false → Same path f f2)
      → (a ≡ true → b ≡ true → d ≡ true → r ≡ true → files.read path f3 ≡ some (whole c))
      → Outcome path c f (
          if not a || not b || not d
          then (err eio, f1)
          else if not r
          then (err eio, f2)
          else (ok tt, f3))
  conclude path c f f1 f2 f3 true true true true p q w = w refl refl refl refl
  conclude path c f f1 f2 f3 true true true false p q w = q refl
  conclude path c f f1 f2 f3 true true false r p q w = p
  conclude path c f f1 f2 f3 true false d r p q w = p
  conclude path c f f1 f2 f3 false b d r p q w = p

  write_out-Outcome :
      (path : List ℕ) (c : CacheRecord) (f : F) → Outcome path c f (write_out layout files path c f)
  unfolding write_out
  write_out-Outcome path c f =
      let apart = temporary-apart path in
      let t = temporary path in
      let w = files.write t c f in
      let u = files.flush t w.1 in
      let v = files.close t u.1 in
      let x = files.rename t path v.1 in
      let until : Same path f v.1 =
        Same-trans path f u.1 v.1
          (Same-trans path f w.1 u.1 (laws.write_apart t path c f apart)
            (laws.flush_apart t path w.1 apart))
          (laws.close_apart t path u.1 apart) in
      conclude path c f (files.remove t v.1) (files.remove t x.1) x.1 w.0 u.0 v.0 x.0
        (Same-trans path f v.1 (files.remove t v.1) until (laws.remove_apart t path v.1 apart))
        (λ r.
          Same-trans path f x.1 (files.remove t x.1)
            (Same-trans path f v.1 x.1 until (laws.rename_fails t path v.1 apart r))
            (laws.remove_apart t path x.1 apart))
        (λ a b d r. laws.rename_moves t path v.1 apart r ∙ laws.written t c f a b d)

  -- What a load makes of a file.
  load-Same :
      (variable : Option (List ℕ)) (path : List ℕ) (f f' : F)
      → cache_path variable ≡ some path
      → Same path f f'
      → load layout files variable f' ≡ load layout files variable f
  unfolding load
  load-Same variable path f f' e s = ground arith

  load-whole :
      (variable : Option (List ℕ)) (path : List ℕ) (c : CacheRecord) (f : F)
      → cache_path variable ≡ some path
      → valid layout c ≡ true
      → files.read path f ≡ some (whole c)
      → load layout files variable f ≡ ok c
  unfolding load accept
  load-whole variable path c f e h r = ground arith

  load-Outcome :
      (variable : Option (List ℕ)) (path : List ℕ) (c : CacheRecord) (f : F)
      (out : Result Errno (Unit {0}) × F)
      → cache_path variable ≡ some path
      → valid layout c ≡ true
      → Outcome path c f out
      → load layout files variable out.1
        ≡ (elim (out.0) [ ok _ ↦ ok c | err e ↦ load layout files variable f ])
  load-Outcome variable path c f (ok _, f') e h o = load-whole variable path c f' e h o
  load-Outcome variable path c f (err x, f') e h o = load-Same variable path f f' e o

  Outcome-from :
      (path : List ℕ) (c : CacheRecord) (f f1 : F) (out : Result Errno (Unit {0}) × F)
      → Same path f f1
      → Outcome path c f1 out
      → Outcome path c f out
  Outcome-from path c f f1 (ok _, f') s o = o
  Outcome-from path c f f1 (err x, f') s o = Same-trans path f f1 f' s o

  save-Outcome :
      (variable : Option (List ℕ)) (path : List ℕ) (c : CacheRecord) (f : F)
      → cache_path variable ≡ some path
      → Outcome path c f (save layout files variable c f)
  unfolding save
  save-Outcome variable path c f e =
      elim (Bool-cases (length (temporary path) == 0 || leb 512 (length (temporary path)))) [
        | inl long ↦ rw (e, long, save) (refl, refl)
        | inr fits ↦ elim (Option-cases (files.open_write (temporary path) f)) [
          | inl stop ↦ rw (e, fits, stop, save) (refl, refl)
          | inr (f1, opened) ↦
              rw (e, fits, opened, save)
                (Outcome-from path c f f1 (write_out layout files path c f1)
                  (laws.open_write_apart (temporary path) path f f1 (temporary-apart path) opened)
                  (write_out-Outcome path c f1))
        ]
      ]

  -- Saving a valid record on files that keep the promises of `FilesLaws`: if it succeeds, the next
  -- load gives exactly that record; if it fails, at whatever call, the next load gives what a load gave
  -- before.
  pub load-save :
      (variable : Option (List ℕ)) (c : CacheRecord) (f : F)
      → valid layout c ≡ true
      → let (result, f') = save layout files variable c f in
        load layout files variable f'
        ≡ (elim result [ ok _ ↦ ok c | err e ↦ load layout files variable f ])
  unfolding save
  load-save variable c f h = elim (Option-cases (cache_path variable)) [
    | inl off ↦ rw (off, save) refl
    | inr (path, e) ↦
        load-Outcome variable path c f (save layout files variable c f) e h
          (save-Outcome variable path c f e)
  ]
