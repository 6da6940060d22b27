-- ===== src/Protocol/Utf8.antt =====
-- `valid_utf8` of watch_protocol.c.
pub mod Bits
pub mod Encoding
pub mod Validity
use Prim.Native.Nat.{bit_and, bit_or}
use cmf_watch_pro_2_os.Base.{
  ℕ, zero, suc, ◌+◌, ◌*◌, ◌%◌, ◌^◌, Bool, true, false, ◌&&◌, ◌||◌, not, List, [], ◌∷◌, Option, none,
  some, ltb, leb, ◌==◌, if◌then◌else◌, length, ◌>>=◌,
}

-- The bits of the first byte that belong to the code point, and the number of bytes to follow.
unfoldable pub lead : ℕ → Option (ℕ × ℕ)
lead first =
    if bit_and first 0xe0 == 0xc0
    then some (bit_and first 0x1f, 1)
    else if bit_and first 0xf0 == 0xe0
    then some (bit_and first 0x0f, 2)
    else if bit_and first 0xf8 == 0xf0
    then some (bit_and first 0x07, 3)
    else none

-- `(next & 0xc0U) != 0x80U`, denied.
unfoldable pub is_continuation : ℕ → Bool
is_continuation next = bit_and next 0xc0 == 0x80

-- `(codepoint << 6) | (next & 0x3fU)` on uint32_t.
unfoldable pub join : ℕ → ℕ → ℕ
join codepoint next = bit_or (codepoint * 64 % 2 ^ 32) (bit_and next 0x3f)

-- The loop over `j`, with the bytes from `i` on.
unfoldable pub continue_with : ℕ → ℕ → List ℕ → Option (ℕ × List ℕ)
continue_with zero codepoint bytes = some (codepoint, bytes)
continue_with (suc n) codepoint [] = none
continue_with (suc n) codepoint (next ∷ bytes) =
    let rest = continue_with n (join codepoint next) bytes in
    if is_continuation next then rest else none

-- An overlong form, a code point that is too large, or a surrogate.
abbrev pub forbidden : ℕ → ℕ → Bool
forbidden continuation codepoint =
    continuation == 1 && ltb codepoint 0x80
    || continuation == 2 && ltb codepoint 0x800
    || continuation == 3 && ltb codepoint 0x10000
    || ltb 0x10ffff codepoint
    || leb 0xd800 codepoint && leb codepoint 0xdfff

-- One round of the loop: the code point and the bytes that are left, `none` where it returns false.
unfoldable pub next_codepoint : ℕ → List ℕ → Option (ℕ × List ℕ)
next_codepoint first bytes = if ltb first 0x80 then some (first, bytes) else do
  (codepoint, continuation) ← lead first
  if ltb (length bytes) continuation then none else (do
    (codepoint', rest) ← continue_with continuation codepoint bytes
    if forbidden continuation codepoint' then none else some (codepoint', rest))

-- Each round reads one byte at least, so as many rounds as there are bytes are enough.
unfoldable pub valid_from : ℕ → List ℕ → Bool
valid_from fuel [] = true
valid_from zero (first ∷ bytes) = false
valid_from (suc fuel) (first ∷ bytes) = elim (next_codepoint first bytes) [
  | none ↦ false
  | some (codepoint, rest) ↦ valid_from fuel rest
]

unfoldable pub valid_utf8 : List ℕ → Bool
unfolding valid_from
valid_utf8 bytes = valid_from (length bytes) bytes
