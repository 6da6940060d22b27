-- ===== src/Transport/Frames/Numerals.antt =====
-- The numerals that are printed are read back, and every line fits its buffer.
use native.Mathlib.Nat.{pow-suc}
use cmf_watch_pro_2_os.Base.{
  ℕ, zero, suc, ◌+◌, ◌-◌, ◌*◌, ◌/◌, ◌%◌, ◌^◌, ◌≤◌, ◌<◌, ◌≡◌, refl, ◌≢◌, true, false, Bool, List, [],
  ◌∷◌, ◌++◌, arith, length, length-append, ok,
}
use cmf_watch_pro_2_os.Json.{Token, TokenType}
use cmf_watch_pro_2_os.Protocol.Numbers.{Digits, value_from, parse_u32, parse_u32_iff}
use cmf_watch_pro_2_os.Sync.Values.{parse_u64}
use cmf_watch_pro_2_os.Sync.Values.Numerals.{parse_u64_iff}
use cmf_watch_pro_2_os.Transport.Frames.{
  digits_of, Format, print, hello_format, unsupported_format, sync_format, music_format,
  playing_text, decimal_u32, decimal_u64, hello_frame, unsupported_frame, sync_frame, music_frame,
  fits,
}

pub length-digits_of : (fuel n : ℕ) → length (digits_of fuel n) ≤ fuel
unfolding digits_of
length-digits_of zero n = omega arith
length-digits_of (suc fuel) n = ground (
  arith,
  length-digits_of fuel (n / 10),
  length-append (digits_of fuel (n / 10)) ((48 + n % 10) ∷ []),
)

Digits-append : (xs : List ℕ) (c : ℕ) → Digits xs → 48 ≤ c → c ≤ 57 → Digits (xs ++ c ∷ [])
Digits-append [] c d h k = (h, k, tt)
Digits-append (x ∷ xs) c d h k = (d.0, d.1, Digits-append xs c d.2 h k)

Digits-digits_of : (fuel n : ℕ) → Digits (digits_of fuel n)
unfolding digits_of
Digits-digits_of zero n = tt
Digits-digits_of (suc fuel) n =
    ground (
      arith,
      Digits-append (digits_of fuel (n / 10)) (48 + n % 10) (Digits-digits_of fuel (n / 10)),
    )

value_from-append :
    (acc : ℕ) (xs : List ℕ) (c : ℕ)
    → value_from acc (xs ++ c ∷ []) ≡ value_from acc xs * 10 + (c - 48)
value_from-append acc [] c = refl
value_from-append acc (x ∷ xs) c = value_from-append (acc * 10 + (x - 48)) xs c

value_from-digits_of : (fuel n : ℕ) → n < 10 ^ fuel → value_from 0 (digits_of fuel n) ≡ n
unfolding digits_of
value_from-digits_of zero n h = omega arith
value_from-digits_of (suc fuel) n h = ground (
  arith,
  pow-suc 10 fuel,
  value_from-append 0 (digits_of fuel (n / 10)) (48 + n % 10),
  value_from-digits_of fuel (n / 10),
)

append_one-ne-nil : (xs : List ℕ) (c : ℕ) → xs ++ c ∷ [] ≢ []
append_one-ne-nil [] c = λ e. cc
append_one-ne-nil (x ∷ xs) c = λ e. cc

digits_of-ne-nil : (fuel n : ℕ) → digits_of (suc fuel) n ≢ []
unfolding digits_of
digits_of-ne-nil fuel n = ground (arith, append_one-ne-nil (digits_of fuel (n / 10)) (48 + n % 10))

-- A number token with this text.
abbrev pub number_token : List ℕ → Token
number_token text = record { type = TokenType.number; text = text }

-- The numerals that are printed for an identifier and for a revision are read back as these numbers
-- by the parsers of a message's numbers, for every uint32_t and every uint64_t.
pub parse-decimal :
    (id revision : ℕ)
    → id < 2 ^ 32
    → revision < 2 ^ 64
    → (parse_u32 (number_token (decimal_u32 id)) ≡ ok id)
      × (parse_u64 (number_token (decimal_u64 revision)) ≡ ok revision)
parse-decimal id revision h k = (
  (parse_u32_iff (number_token (decimal_u32 id)) id).1 (
    (refl, digits_of-ne-nil 9 id, Digits-digits_of 10 id, value_from-digits_of 10 id (omega arith)),
    h,
  ),
  (parse_u64_iff (number_token (decimal_u64 revision)) revision).1 (
    (
      refl,
      digits_of-ne-nil 19 revision,
      Digits-digits_of 20 revision,
      value_from-digits_of 20 revision (omega arith),
    ),
    k,
  ),
)

fits_of_lt :
    (capacity : ℕ) (text : List ℕ)
    → 0 < length text
    → length text < capacity
    → fits capacity text ≡ true
fits_of_lt capacity text h k = ground arith

length-print :
    (f : Format) (a b : List ℕ)
    → length (print f a b) ≡ length f.head + length a + length f.middle + length b + length f.tail
unfolding print
length-print f a b =
    let e1 = length-append f.head a in
    let e2 = length-append (f.head ++ a) f.middle in
    let e3 = length-append (f.head ++ a ++ f.middle) b in
    let e4 = length-append (f.head ++ a ++ f.middle ++ b) f.tail in omega arith

length-playing : (playing : Bool) → length (playing_text playing) ≤ 5
length-playing true = omega arith
length-playing false = omega arith

-- Every line that the transport prints fits its buffer, so that no request fails for want of room,
-- whatever the identifiers and the revision; the session's identifier has 36 characters at most.
pub frames-fit :
    (id reply_to revision : ℕ) (playing : Bool) (session_id : List ℕ)
    → length session_id ≤ 36
    → (fits 512 (hello_frame id session_id) ≡ true)
      × (fits 256 (unsupported_frame id reply_to) ≡ true)
      × (fits 192 (sync_frame id revision) ≡ true)
      × (fits 256 (music_frame id playing) ≡ true)
unfolding hello_frame unsupported_frame sync_frame music_frame
frames-fit id reply_to revision playing session_id h =
    let short_id = length-digits_of 10 id in
    (
      fits_of_lt 512 (hello_frame id session_id)
          (omega (arith, length-print hello_format (decimal_u32 id) session_id))
          (omega (arith, length-print hello_format (decimal_u32 id) session_id)),
      fits_of_lt 256 (unsupported_frame id reply_to)
          (omega (arith, length-print unsupported_format (decimal_u32 id) (decimal_u32 reply_to)))
          (omega (
            arith,
            length-print unsupported_format (decimal_u32 id) (decimal_u32 reply_to),
            length-digits_of 10 reply_to,
          )),
      fits_of_lt 192 (sync_frame id revision)
          (omega (arith, length-print sync_format (decimal_u32 id) (decimal_u64 revision)))
          (omega (
            arith,
            length-print sync_format (decimal_u32 id) (decimal_u64 revision),
            length-digits_of 20 revision,
          )),
      fits_of_lt 256 (music_frame id playing)
          (omega (arith, length-print music_format (decimal_u32 id) (playing_text playing)))
          (omega (
            arith,
            length-print music_format (decimal_u32 id) (playing_text playing),
            length-playing playing,
          )),
    )
