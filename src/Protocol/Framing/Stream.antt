-- ===== src/Protocol/Framing/Stream.antt =====
-- A stream of bytes, however it is cut into chunks, and the bound on a line.
pub mod Frames
use mathlib.Core.List.{append_assoc, append-nil}
use cmf_watch_pro_2_os.Base.{
  ℕ, ◌+◌, ◌≤◌, ◌≡◌, refl, ap, ◌∙◌, ◌≢◌, ◌⊎◌, inl, inr, true, List, [], ◌∷◌, ◌++◌, arith, leb, ◌==◌,
  if◌then◌else◌, length, length-append, Result-cases, Bool-cases,
}
use cmf_watch_pro_2_os.Base.Int.{ℤ, pos, negsuc, is_neg}
use cmf_watch_pro_2_os.Json.{Json}
use cmf_watch_pro_2_os.Protocol.Messages.{Message}
use cmf_watch_pro_2_os.Protocol.Decode.{ProtocolError, decode, max_frame_size}
use cmf_watch_pro_2_os.Protocol.Framing.{
  Decoder, empty_decoder, error_code, strip_return, Round, goes_on, returns, deliver, push_byte,
  push,
}

-- No byte is a newline.
abbrev pub OneLine : List ℕ → Type 0
OneLine [] = Unit {0}
OneLine (b ∷ bytes) = (b ≢ 10) × OneLine bytes

module _ {S : Type 0} (json : Json) (handler : Message → S → ℤ × S) where
  pub Round-cases :
      (r : Round S)
      → ((d : Decoder) × (s : S) × (r ≡ goes_on d s))
        ⊎ ((result : ℤ) × (d : Decoder) × (s : S) × (r ≡ returns result d s))
  Round-cases (goes_on d s) = inl (d, s, refl)
  Round-cases (returns result d s) = inr (result, d, s, refl)

  pub push_on :
      (d : Decoder) (b : ℕ) (bytes : List ℕ) (s : S) {d' : Decoder} {s' : S}
      → push_byte json handler d b s ≡ goes_on d' s'
      → push json handler d (b ∷ bytes) s ≡ push json handler d' bytes s'
  unfolding push
  push_on d b bytes s e = rw (e, push)

  pub push_off :
      (d : Decoder) (b : ℕ) (bytes : List ℕ) (s : S) {result : ℤ} {d' : Decoder} {s' : S}
      → push_byte json handler d b s ≡ returns result d' s'
      → push json handler d (b ∷ bytes) s ≡ (result, d', s')
  unfolding push
  push_off d b bytes s e = rw (e, push)

  abbrev RoundOk : Round S → Type 0
  RoundOk (goes_on d s) = length d.bytes ≤ max_frame_size
  RoundOk (returns result d s) = (is_neg result ≡ true) × (length d.bytes ≤ max_frame_size)

  abbrev pub Delivered : Round S → Type 0
  Delivered (goes_on d s) = d ≡ empty_decoder
  Delivered (returns result d s) = (is_neg result ≡ true) × (d ≡ empty_decoder)

  error_code-neg : (e : ProtocolError) → is_neg (error_code e) ≡ true
  error_code-neg ProtocolError.invalid_json = refl
  error_code-neg _ = refl

  handled :
      (answer : ℤ × S)
      → Delivered (
          if is_neg answer.0
          then returns answer.0 empty_decoder answer.1
          else goes_on empty_decoder answer.1)
  handled (pos n, s) = refl
  handled (negsuc n, s) = (refl, refl)

  -- A line leaves the buffer empty, and the function returns only with an error.
  pub deliver-Delivered : (frame : List ℕ) (s : S) → Delivered (deliver json handler frame s)
  unfolding deliver
  deliver-Delivered frame s = elim (Bool-cases (length frame == 0)) [
    | inl e ↦ rw (e, deliver)
    | inr e ↦ elim (Result-cases (decode json frame)) [
      | inl (m, d) ↦ rw (e, d, deliver) (handled (handler m s))
      | inr (x, d) ↦ rw (e, d, deliver) (error_code-neg x, refl)
    ]
  ]

  Delivered-RoundOk : (r : Round S) → Delivered r → RoundOk r
  Delivered-RoundOk (goes_on d s) h = rw h (omega arith)
  Delivered-RoundOk (returns result d s) h = (h.0, rw h.1 (omega arith))

  push_byte-RoundOk : (d : Decoder) (b : ℕ) (s : S) → RoundOk (push_byte json handler d b s)
  unfolding push_byte
  push_byte-RoundOk d b s = elim (Bool-cases (b == 10)) [
    | inl e ↦ rw (e, push_byte) (Delivered-RoundOk _ (deliver-Delivered (strip_return d.bytes) s))
    | inr e ↦ elim (Bool-cases (leb max_frame_size (length d.bytes))) [
      | inl full ↦ rw (e, full, push_byte) (refl, omega arith)
      | inr room ↦ rw (e, room, push_byte) (ground (arith, length-append d.bytes (b ∷ [])))
    ]
  ]

  -- Bytes without a newline, with those before them, are kept up to the size of the buffer.
  pub push_line :
      (kept line rest : List ℕ) (s : S)
      → OneLine line
      → length kept + length line ≤ max_frame_size
      → push json handler (record { bytes = kept }) (line ++ rest) s
        ≡ push json handler (record { bytes = kept ++ line }) rest s
  push_line kept [] rest s one fits = rw append-nil
  push_line kept (b ∷ line) rest s one fits =
      push_on (record { bytes = kept }) b (line ++ rest) s {d' = record { bytes = kept ++ b ∷ [] }}
        {s' = s} (unfold push_byte in ground arith)
      ∙ push_line (kept ++ b ∷ []) line rest s one.1 (omega (arith, length-append kept (b ∷ [])))
      ∙ ap (λ t. push json handler (record { bytes = t }) rest s) (append_assoc kept (b ∷ []) line)

  -- Cutting the input into two chunks changes nothing: the second is pushed to what the first left,
  -- unless the first ended with an error, which then is the result.
  pub push-append :
      (d : Decoder) (first second : List ℕ) (s : S)
      → push json handler d (first ++ second) s ≡ (
          let (result, d', s') = push json handler d first s in
          if is_neg result then (result, d', s') else push json handler d' second s')
  unfolding push
  push-append d [] second s = refl
  push-append d (b ∷ first) second s = elim (Round-cases (push_byte json handler d b s)) [
    | inl (d', s', e) ↦ rw (e, push) (push-append d' first second s')
    | inr (result, d', s', e) ↦
        let bad : is_neg result ≡ true = (rw e at (push_byte-RoundOk d b s)).0 in
        rw (e, push, bad) refl
  ]

  -- The buffer never holds more than 16384 bytes.
  pub push-bounded :
      (d : Decoder) (bytes : List ℕ) (s : S)
      → length d.bytes ≤ max_frame_size
      → length (push json handler d bytes s).1.bytes ≤ max_frame_size
  unfolding push
  push-bounded d [] s h = h
  push-bounded d (b ∷ bytes) s h = elim (Round-cases (push_byte json handler d b s)) [
    | inl (d', s', e) ↦ rw (e, push) (push-bounded d' bytes s' (rw e at (push_byte-RoundOk d b s)))
    | inr (result, d', s', e) ↦ rw (e, push) (rw e at (push_byte-RoundOk d b s)).1
  ]

  -- A line of more than 16384 bytes, its carriage return counted, is refused as soon as the buffer is
  -- full, before anything is decoded.
  pub push-too_large :
      (line : List ℕ) (b : ℕ) (rest : List ℕ) (s : S)
      → OneLine line
      → length line ≡ max_frame_size
      → b ≢ 10
      → push json handler empty_decoder (line ++ b ∷ rest) s
        ≡ (error_code ProtocolError.frame_too_large, empty_decoder, s)
  push-too_large line b rest s one full other =
      push_line [] line (b ∷ rest) s one (omega (arith, full))
      ∙ push_off _ b rest s (unfold push_byte in ground (arith, full))
