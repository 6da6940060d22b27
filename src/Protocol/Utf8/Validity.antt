-- ===== src/Protocol/Utf8/Validity.antt =====
-- The whole loop: what `valid_utf8` accepts.
use native.Mathlib.Decide.{dec_lt}
use mathlib.Core.Path.{subst}
use cmf_watch_pro_2_os.Base.{
  ℕ, zero, suc, ◌≤◌, ◌≡◌, refl, ap, sym, ◌∙◌, ◌↔◌, inl, inr, true, false, List, [], ◌∷◌, ◌++◌, none,
  some, arith, length, length-append, Option-cases,
}
use cmf_watch_pro_2_os.Protocol.Utf8.{next_codepoint, valid_from, valid_utf8}
use cmf_watch_pro_2_os.Protocol.Utf8.Encoding.{
  Scalar, Scalars, Bytes, encode, encode_all, round_sound, complete_one, complete_two,
  complete_three, complete_four,
}

valid_step :
    (fuel b : ℕ) (bytes : List ℕ) {c : ℕ} {rest : List ℕ}
    → next_codepoint b bytes ≡ some (c, rest)
    → valid_from (suc fuel) (b ∷ bytes) ≡ valid_from fuel rest
unfolding valid_from
valid_step fuel b bytes e = rw (e, valid_from)

valid_stop :
    (fuel b : ℕ) (bytes : List ℕ)
    → next_codepoint b bytes ≡ none
    → valid_from (suc fuel) (b ∷ bytes) ≡ false
unfolding valid_from
valid_stop fuel b bytes e = rw (e, valid_from)

Bytes-drop : (xs ys : List ℕ) → Bytes (xs ++ ys) → Bytes ys
Bytes-drop [] ys v = v
Bytes-drop (x ∷ xs) ys v = Bytes-drop xs ys v.1

accepted_is_encoding :
    (fuel : ℕ) (bytes : List ℕ)
    → Bytes bytes
    → valid_from fuel bytes ≡ true
    → (cs : List ℕ) × Scalars cs × (bytes ≡ encode_all cs)
accepted_is_encoding fuel [] v e = ([], tt, refl)
accepted_is_encoding zero (b ∷ bytes) v e = unfold valid_from in cc
accepted_is_encoding (suc fuel) (b ∷ bytes) v e = elim (Option-cases (next_codepoint b bytes)) [
  | inl stop ↦ cc (valid_stop fuel b bytes stop)
  | inr ((c, rest), step) ↦
      let (s, split) = round_sound b bytes v.0 v.1 step in
      let (cs, ss, whole) =
        accepted_is_encoding fuel rest (Bytes-drop (encode c) rest (subst Bytes split v))
          (sym (valid_step fuel b bytes step) ∙ e) in
      (c ∷ cs, (s, ss), split ∙ ap (λ t. encode c ++ t) whole)
]

-- The first round reads back what `encode` wrote.
encode_round :
    (c : ℕ) (rest : List ℕ)
    → Scalar c
    → (b : ℕ) × (bytes : List ℕ) × (encode c ++ rest ≡ b ∷ bytes)
      × (next_codepoint b bytes ≡ some (c, rest))
encode_round c rest s = elim (dec_lt c 0x80) [
  | yes p ↦ (_, _, ground arith, complete_one c rest p)
  | no n1 ↦ elim (dec_lt c 0x800) [
    | yes p ↦ (_, _, ground arith, complete_two c rest (omega arith) p)
    | no n2 ↦ elim (dec_lt c 0x10000) [
      | yes p ↦ (_, _, ground arith, complete_three c rest (omega arith) p s)
      | no n3 ↦ (_, _, ground arith, complete_four c rest (omega arith) s)
    ]
  ]
]

encode-pos : (c : ℕ) → 1 ≤ length (encode c)
encode-pos c = ground arith

encoding_is_accepted :
    (fuel : ℕ) (cs : List ℕ)
    → Scalars cs
    → length (encode_all cs) ≤ fuel
    → valid_from fuel (encode_all cs) ≡ true
encoding_is_accepted fuel [] s h = unfold valid_from in refl
encoding_is_accepted zero (c ∷ cs) (s, ss) h =
    absurd (omega (arith, length-append (encode c) (encode_all cs), encode-pos c))
encoding_is_accepted (suc fuel) (c ∷ cs) (s, ss) h =
    let (b, bytes, split, step) = encode_round c (encode_all cs) s in
    let short : length (encode_all cs) ≤ fuel =
      omega (arith, length-append (encode c) (encode_all cs), encode-pos c) in
    rw split (valid_step fuel b bytes step ∙ encoding_is_accepted fuel cs ss short)

-- `valid_utf8` accepts a sequence of bytes exactly when it is the encoding, in shortest form, of some
-- sequence of code points up to 0x10ffff without surrogates.
pub valid_utf8_iff :
    (bytes : List ℕ)
    → Bytes bytes
    → (valid_utf8 bytes ≡ true) ↔ ((cs : List ℕ) × Scalars cs × (bytes ≡ encode_all cs))
unfolding valid_utf8
valid_utf8_iff bytes v = (
  accepted_is_encoding (length bytes) bytes v,
  λ (cs, ss, e). rw e (encoding_is_accepted (length (encode_all cs)) cs ss (omega arith)),
)
