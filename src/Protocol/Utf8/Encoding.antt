-- ===== src/Protocol/Utf8/Encoding.antt =====
-- The validator against the encoding that it should accept.
use native.Mathlib.Decide.{dec_lt, ℕ_discrete}
use cmf_watch_pro_2_os.Base.{
  ℕ, ◌+◌, ◌*◌, ◌/◌, ◌%◌, ◌^◌, ◌≤◌, ◌<◌, ◌≡◌, ◌⊎◌, ◌≢◌, List, [], ◌∷◌, ◌++◌, none, some, arith, ltb,
  ◌==◌, if◌then◌else◌,
}
use cmf_watch_pro_2_os.Protocol.Utf8.{continue_with, next_codepoint}
use cmf_watch_pro_2_os.Protocol.Utf8.Bits.{lead-eq, is_continuation-eq, join-eq}

-- RFC 3629: a code point that is no surrogate, and its shortest form.
abbrev pub Scalar : ℕ → Type 0
Scalar c = (c < 0xd800) ⊎ ((0xe000 ≤ c) × (c < 0x110000))

abbrev pub tail_byte : ℕ → ℕ
tail_byte n = 0x80 + n % 64

abbrev pub encode : ℕ → List ℕ
encode c =
    if ltb c 0x80
    then c ∷ []
    else if ltb c 0x800
    then (0xc0 + c / 64) ∷ tail_byte c ∷ []
    else if ltb c 0x10000
    then (0xe0 + c / 4096) ∷ tail_byte (c / 64) ∷ tail_byte c ∷ []
    else (0xf0 + c / 262144) ∷ tail_byte (c / 4096) ∷ tail_byte (c / 64) ∷ tail_byte c ∷ []

abbrev pub encode_all : List ℕ → List ℕ
encode_all [] = []
encode_all (c ∷ cs) = encode c ++ encode_all cs

abbrev pub Scalars : List ℕ → Type 0
Scalars [] = Unit {0}
Scalars (c ∷ cs) = Scalar c × Scalars cs

abbrev pub Bytes : List ℕ → Type 0
Bytes [] = Unit {0}
Bytes (b ∷ bs) = (b < 256) × Bytes bs

-- What the loop over `j` makes of one, two and three continuation bytes.
read_one :
    (c x : ℕ) (bytes : List ℕ)
    → c < 2 ^ 26
    → x < 256
    → continue_with 1 c (x ∷ bytes) ≡ (if x / 64 == 2 then some (c * 64 + x % 64, bytes) else none)
unfolding continue_with
read_one c x bytes hc hx = rw (is_continuation-eq x hx, join-eq c x hc hx)

read_two :
    (c x y : ℕ) (bytes : List ℕ)
    → c < 2 ^ 12
    → x < 256
    → y < 256
    → continue_with 2 c (x ∷ y ∷ bytes) ≡ (
        if x / 64 == 2
        then (if y / 64 == 2 then some ((c * 64 + x % 64) * 64 + y % 64, bytes) else none)
        else none)
unfolding continue_with
read_two c x y bytes hc hx hy = rw (
  is_continuation-eq x hx,
  join-eq c x (omega arith) hx,
  is_continuation-eq y hy,
  join-eq (c * 64 + x % 64) y (omega arith) hy,
)

read_three :
    (c x y z : ℕ) (bytes : List ℕ)
    → c < 2 ^ 8
    → x < 256
    → y < 256
    → z < 256
    → continue_with 3 c (x ∷ y ∷ z ∷ bytes) ≡ (
        if x / 64 == 2
        then (if y / 64 == 2
            then (if z / 64 == 2
                then some (((c * 64 + x % 64) * 64 + y % 64) * 64 + z % 64, bytes)
                else none)
            else none)
        else none)
unfolding continue_with
read_three c x y z bytes hc hx hy hz = rw (
  is_continuation-eq x hx,
  join-eq c x (omega arith) hx,
  is_continuation-eq y hy,
  join-eq (c * 64 + x % 64) y (omega arith) hy,
  is_continuation-eq z hz,
  join-eq ((c * 64 + x % 64) * 64 + y % 64) z (omega arith) hz,
)

-- A round that succeeds has read the encoding of a scalar value.
sound_one :
    (b : ℕ) (bytes : List ℕ) {c : ℕ} {rest : List ℕ}
    → b < 128
    → next_codepoint b bytes ≡ some (c, rest)
    → Scalar c × (b ∷ bytes ≡ encode c ++ rest)
unfolding next_codepoint
sound_one b bytes h e = ground arith

sound_two :
    (b : ℕ) (bytes : List ℕ) {c : ℕ} {rest : List ℕ}
    → b < 256
    → b / 32 ≡ 6
    → Bytes bytes
    → next_codepoint b bytes ≡ some (c, rest)
    → Scalar c × (b ∷ bytes ≡ encode c ++ rest)
unfolding next_codepoint
sound_two b [] h k v e = ground (arith, lead-eq b h)
sound_two b (x ∷ bytes) h k v e =
    ground (arith, lead-eq b h, read_one (b % 32) x bytes (omega arith) v.0)

sound_three :
    (b : ℕ) (bytes : List ℕ) {c : ℕ} {rest : List ℕ}
    → b < 256
    → b / 16 ≡ 14
    → Bytes bytes
    → next_codepoint b bytes ≡ some (c, rest)
    → Scalar c × (b ∷ bytes ≡ encode c ++ rest)
unfolding next_codepoint
sound_three b [] h k v e = ground (arith, lead-eq b h)
sound_three b (x ∷ []) h k v e = ground (arith, lead-eq b h)
sound_three b (x ∷ y ∷ bytes) h k v e =
    ground (arith, lead-eq b h, read_two (b % 16) x y bytes (omega arith) v.0 v.1.0)

sound_four :
    (b : ℕ) (bytes : List ℕ) {c : ℕ} {rest : List ℕ}
    → b < 256
    → b / 8 ≡ 30
    → Bytes bytes
    → next_codepoint b bytes ≡ some (c, rest)
    → Scalar c × (b ∷ bytes ≡ encode c ++ rest)
unfolding next_codepoint
sound_four b [] h k v e = ground (arith, lead-eq b h)
sound_four b (x ∷ []) h k v e = ground (arith, lead-eq b h)
sound_four b (x ∷ y ∷ []) h k v e = ground (arith, lead-eq b h)
sound_four b (x ∷ y ∷ z ∷ bytes) h k v e =
    ground (arith, lead-eq b h, read_three (b % 8) x y z bytes (omega arith) v.0 v.1.0 v.1.1.0)

no_lead :
    (b : ℕ) (bytes : List ℕ)
    → b < 256
    → 128 ≤ b
    → b / 32 ≢ 6
    → b / 16 ≢ 14
    → b / 8 ≢ 30
    → next_codepoint b bytes ≡ none
unfolding next_codepoint
no_lead b bytes h low two three four = ground (arith, lead-eq b h)

pub round_sound :
    (b : ℕ) (bytes : List ℕ) {c : ℕ} {rest : List ℕ}
    → b < 256
    → Bytes bytes
    → next_codepoint b bytes ≡ some (c, rest)
    → Scalar c × (b ∷ bytes ≡ encode c ++ rest)
round_sound b bytes h v e = elim (dec_lt b 128) [
  | yes p ↦ sound_one b bytes p e
  | no n1 ↦ elim (ℕ_discrete (b / 32) 6) [
    | yes p ↦ sound_two b bytes h p v e
    | no n2 ↦ elim (ℕ_discrete (b / 16) 14) [
      | yes p ↦ sound_three b bytes h p v e
      | no n3 ↦ elim (ℕ_discrete (b / 8) 30) [
        | yes p ↦ sound_four b bytes h p v e
        | no n4 ↦ absurd (cc (no_lead b bytes h (omega arith) n2 n3 n4))
      ]
    ]
  ]
]

pub complete_two :
    (c : ℕ) (rest : List ℕ)
    → 0x80 ≤ c
    → c < 0x800
    → next_codepoint (0xc0 + c / 64) (tail_byte c ∷ rest) ≡ some (c, rest)
unfolding next_codepoint
complete_two c rest lo hi = ground (
  arith,
  lead-eq (0xc0 + c / 64) (omega arith),
  read_one ((0xc0 + c / 64) % 32) (tail_byte c) rest (omega arith) (omega arith),
)

pub complete_three :
    (c : ℕ) (rest : List ℕ)
    → 0x800 ≤ c
    → c < 0x10000
    → Scalar c
    → next_codepoint (0xe0 + c / 4096) (tail_byte (c / 64) ∷ tail_byte c ∷ rest) ≡ some (c, rest)
unfolding next_codepoint
complete_three c rest lo hi s = ground (
  arith,
  lead-eq (0xe0 + c / 4096) (omega arith),
  read_two ((0xe0 + c / 4096) % 16) (tail_byte (c / 64)) (tail_byte c) rest (omega arith)
      (omega arith) (omega arith),
)

pub complete_four :
    (c : ℕ) (rest : List ℕ)
    → 0x10000 ≤ c
    → Scalar c
    → next_codepoint
        (0xf0 + c / 262144)
        (tail_byte (c / 4096) ∷ tail_byte (c / 64) ∷ tail_byte c ∷ rest)
      ≡ some (c, rest)
unfolding next_codepoint
complete_four c rest lo s = ground (
  arith,
  lead-eq (0xf0 + c / 262144) (omega arith),
  read_three ((0xf0 + c / 262144) % 8) (tail_byte (c / 4096)) (tail_byte (c / 64)) (tail_byte c)
      rest (omega arith) (omega arith) (omega arith) (omega arith),
)

pub complete_one : (c : ℕ) (rest : List ℕ) → c < 0x80 → next_codepoint c rest ≡ some (c, rest)
unfolding next_codepoint
complete_one c rest h = ground arith
