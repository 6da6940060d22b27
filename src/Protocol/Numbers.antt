-- ===== src/Protocol/Numbers.antt =====
-- `parse_u32` of watch_protocol.c, and what a decimal numeral is worth.
use cmf_watch_pro_2_os.Base.{
  ℕ, ◌+◌, ◌-◌, ◌*◌, ◌%◌, ◌^◌, ◌≤◌, ◌<◌, ◌≡◌, refl, ap, ◌≢◌, ◌↔◌, Bool, ◌||◌, List, [], ◌∷◌, arith,
  ltb, if◌then◌else◌, Result, ok, err, Errno, einval, erange,
}
use cmf_watch_pro_2_os.Json.{Token, TokenType}

abbrev pub u32_max : ℕ
u32_max = 2 ^ 32 - 1

-- `*cursor < '0' || *cursor > '9'`
abbrev pub not_digit : ℕ → Bool
not_digit c = ltb c b'0' || ltb b'9' c

-- The loop over `cursor`; `result` is a uint64_t.
unfoldable pub u32_loop : ℕ → List ℕ → Result Errno ℕ
u32_loop result [] = ok result
u32_loop result (c ∷ cs) =
    let result' = (result * 10 + (c - b'0')) % 2 ^ 64 in
    let rest = u32_loop result' cs in
    if not_digit c then err einval else if ltb u32_max result' then err erange else rest

abbrev pub parse_number : (List ℕ → Result Errno ℕ) → Token → Result Errno ℕ
parse_number loop token = elim (token.type) [
  | TokenType.number ↦ (elim (token.text) [ [] ↦ err einval | c ∷ cs ↦ loop (c ∷ cs) ])
  | _ ↦ err einval
]

unfoldable pub parse_u32 : Token → Result Errno ℕ
unfolding u32_loop
parse_u32 = parse_number (u32_loop 0)

-- The value of a numeral, and when a text is one.
abbrev pub value_from : ℕ → List ℕ → ℕ
value_from acc [] = acc
value_from acc (c ∷ cs) = value_from (acc * 10 + (c - b'0')) cs

abbrev pub Digits : List ℕ → Type 0
Digits [] = Unit {0}
Digits (c ∷ cs) = (b'0' ≤ c) × (c ≤ b'9') × Digits cs

pub le-value_from : (acc : ℕ) (cs : List ℕ) → acc ≤ value_from acc cs
le-value_from acc [] = omega arith
le-value_from acc (c ∷ cs) = omega (arith, le-value_from (acc * 10 + (c - b'0')) cs)

-- A number token whose text is a numeral worth `v`.
abbrev pub Reads : Token → ℕ → Type 0
Reads t v = (t.type ≡ TokenType.number) × (t.text ≢ []) × Digits t.text × (value_from 0 t.text ≡ v)

u32_loop_sound :
    (r : ℕ) (cs : List ℕ) {v : ℕ}
    → r ≤ u32_max
    → u32_loop r cs ≡ ok v
    → Digits cs × (value_from r cs ≡ v) × (v ≤ u32_max)
unfolding u32_loop
u32_loop_sound r [] h e = (tt, ground arith, ground arith)
u32_loop_sound r (c ∷ cs) {v} h e =
    ground (arith, u32_loop_sound ((r * 10 + (c - b'0')) % 2 ^ 64) cs {v = v})

u32_loop_complete :
    (r : ℕ) (cs : List ℕ)
    → Digits cs
    → value_from r cs ≤ u32_max
    → u32_loop r cs ≡ ok (value_from r cs)
unfolding u32_loop
u32_loop_complete r [] d h = refl
u32_loop_complete r (c ∷ cs) d h =
    ground
      (arith, le-value_from (r * 10 + (c - b'0')) cs, u32_loop_complete (r * 10 + (c - b'0')) cs)

parse_parts :
    (loop : List ℕ → Result Errno ℕ) (type : TokenType) (text : List ℕ) (v : ℕ)
    → (parse_number loop (record { type = type; text = text }) ≡ ok v)
      ↔ ((type ≡ TokenType.number) × (text ≢ []) × (loop text ≡ ok v))
parse_parts loop TokenType.number [] v = ground arith
parse_parts loop TokenType.number (c ∷ cs) v = ground arith
parse_parts loop _ text v = ground arith

pub parse_number_iff :
    (loop : List ℕ → Result Errno ℕ) (t : Token) (v : ℕ)
    → (parse_number loop t ≡ ok v)
      ↔ ((t.type ≡ TokenType.number) × (t.text ≢ []) × (loop t.text ≡ ok v))
parse_number_iff loop t v = parse_parts loop t.type t.text v

-- `parse_u32` succeeds exactly on number tokens that are decimal numerals below 2 ^ 32, and then
-- with their value; leading zeros are allowed.
pub parse_u32_iff : (t : Token) (v : ℕ) → (parse_u32 t ≡ ok v) ↔ (Reads t v × (v < 2 ^ 32))
unfolding parse_u32
parse_u32_iff t v = (
  λ e.
      let (n, full, loop) = (parse_number_iff (u32_loop 0) t v).0 e in
      let (digits, value, small) = u32_loop_sound 0 t.text (omega arith) loop in
      ((n, full, digits, value), omega arith),
  λ ((n, full, digits, value), small).
      (parse_number_iff (u32_loop 0) t v).1
        (n, full, rw (u32_loop_complete 0 t.text digits (omega arith)) (ap ok value)),
)
