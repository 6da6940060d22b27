-- ===== src/Sync/Values/Numerals.antt =====
-- What the 64-bit number parsers accept.
use cmf_watch_pro_2_os.Base.{
  ℕ, ◌+◌, ◌-◌, ◌*◌, ◌%◌, ◌^◌, ◌≤◌, ◌<◌, ◌≡◌, refl, ap, ◌↔◌, List, [], ◌∷◌, arith, ok,
}
use cmf_watch_pro_2_os.Json.{Token}
use cmf_watch_pro_2_os.Protocol.Numbers.{value_from, Digits, Reads, le-value_from, parse_number_iff}
use cmf_watch_pro_2_os.Sync.Values.{u64_max, digits_loop, parse_u64}

digits_loop_sound :
    (limit r : ℕ) (cs : List ℕ) {v : ℕ}
    → 9 ≤ limit
    → limit ≤ u64_max
    → r ≤ limit
    → digits_loop limit r cs ≡ ok v
    → Digits cs × (value_from r cs ≡ v) × (v ≤ limit)
unfolding digits_loop
digits_loop_sound limit r [] lo hi h e = (tt, ground arith, ground arith)
digits_loop_sound limit r (c ∷ cs) {v} lo hi h e =
    ground (arith, digits_loop_sound limit ((r * 10 + (c - b'0')) % 2 ^ 64) cs {v = v})

digits_loop_complete :
    (limit r : ℕ) (cs : List ℕ)
    → limit ≤ u64_max
    → Digits cs
    → value_from r cs ≤ limit
    → digits_loop limit r cs ≡ ok (value_from r cs)
unfolding digits_loop
digits_loop_complete limit r [] hi d h = refl
digits_loop_complete limit r (c ∷ cs) hi d h = ground (
  arith,
  le-value_from (r * 10 + (c - b'0')) cs,
  digits_loop_complete limit (r * 10 + (c - b'0')) cs,
)

-- `parse_u64` succeeds exactly on number tokens that are decimal numerals below 2 ^ 64, and then with
-- their value: no numeral wraps round, and none that fits is refused.
pub parse_u64_iff : (t : Token) (v : ℕ) → (parse_u64 t ≡ ok v) ↔ (Reads t v × (v < 2 ^ 64))
unfolding parse_u64
parse_u64_iff t v = (
  λ e.
      let (n, full, loop) = (parse_number_iff (digits_loop u64_max 0) t v).0 e in
      let (digits, value, small) =
        digits_loop_sound u64_max 0 t.text (omega arith) (omega arith) (omega arith) loop in
      ((n, full, digits, value), omega arith),
  λ ((n, full, digits, value), small). (parse_number_iff (digits_loop u64_max 0) t v).1 (
    n,
    full,
    rw (digits_loop_complete u64_max 0 t.text (omega arith) digits (omega arith)) (ap ok value),
  ),
)
