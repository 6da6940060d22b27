-- ===== src/Cache/Storage.antt =====
-- watch/src/cache/watch_cache_storage.c, the part for the simulator: loading and saving the record.
-- The C library's files are a parameter.
pub mod Replaced
pub mod Device
pub mod Samples
use cmf_watch_pro_2_os.Base.{
  ℕ, Bool, true, false, not, ◌||◌, List, [], ◌∷◌, ◌++◌, Option, none, some, leb, ◌==◌,
  if◌then◌else◌, length, codes, Result, ok, err, Errno, enoent, eio, enotsup, ebadmsg, enametoolong,
}
use cmf_watch_pro_2_os.Cache.Record.{CacheRecord, Layout, valid}

-- What reading a file to its end gives: the record that the first bytes make, whether there were
-- enough of them, whether a byte was left, and whether `fclose` succeeded.
pub record Reading : Type 0 where
  pub candidate : CacheRecord
  pub complete : Bool
  pub trailing : Bool
  pub closed : Bool

-- The calls on files whose state is `F`. `read` is `none` where `fopen` fails, and `missing` says
-- whether errno then is ENOENT; a `Bool` says whether the call succeeded.
pub record Files (F : Type 0) : Type 0 where
  pub read : List ℕ → F → Option Reading
  pub missing : List ℕ → F → Bool
  pub open_write : List ℕ → F → Option F
  pub write : List ℕ → CacheRecord → F → Bool × F
  pub flush : List ℕ → F → Bool × F
  pub close : List ℕ → F → Bool × F
  pub remove : List ℕ → F → F
  pub rename : List ℕ → List ℕ → F → Bool × F

-- From what `getenv` returns.
unfoldable pub cache_path : Option (List ℕ) → Option (List ℕ)
cache_path none = none
cache_path (some []) = none
cache_path (some (c ∷ path)) = some (c ∷ path)

-- `"%s.tmp"`
abbrev pub temporary : List ℕ → List ℕ
temporary path = path ++ codes ".tmp"

module _ {F : Type 0} (layout : Layout) (files : Files F) where
  -- What the opened file's contents come to.
  unfoldable pub accept : Reading → Result Errno CacheRecord
  accept r =
      if not r.complete || r.trailing || not r.closed || not (valid layout r.candidate)
      then err ebadmsg
      else ok r.candidate

  -- The record that `*cache` is set to; an error leaves it alone.
  unfoldable pub load : Option (List ℕ) → F → Result Errno CacheRecord
  unfolding accept
  load variable fs = elim (cache_path variable) [
    | none ↦ err enotsup
    | some path ↦ elim (files.read path fs) [
      | none ↦ err (if files.missing path fs then enoent else eio)
      | some r ↦ accept r
    ]
  ]

  -- From the successful `fopen` of the temporary file on.
  unfoldable pub write_out : List ℕ → CacheRecord → F → Result Errno (Unit {0}) × F
  write_out path cache fs =
      let (written, f1) = files.write (temporary path) cache fs in
      let (flushed, f2) = files.flush (temporary path) f1 in
      let (closed, f3) = files.close (temporary path) f2 in
      let (renamed, f4) = files.rename (temporary path) path f3 in
      if not written || not flushed || not closed
      then (err eio, files.remove (temporary path) f3)
      else if not renamed
      then (err eio, files.remove (temporary path) f4)
      else (ok tt, f4)

  unfoldable pub save : Option (List ℕ) → CacheRecord → F → Result Errno (Unit {0}) × F
  unfolding write_out
  save variable cache fs = elim (cache_path variable) [
    | none ↦ (err enotsup, fs)
    | some path ↦
        if length (temporary path) == 0 || leb 512 (length (temporary path))
        then (err enametoolong, fs)
        else elim (files.open_write (temporary path) fs) [
          | none ↦ (err eio, fs)
          | some f1 ↦ write_out path cache f1
        ]
  ]
