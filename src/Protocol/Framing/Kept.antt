-- ===== src/Protocol/Framing/Kept.antt =====
-- What the handler keeps is kept by the decoder that calls it.
use cmf_watch_pro_2_os.Base.{
  ℕ, inl, inr, List, [], ◌∷◌, leb, ◌==◌, if◌then◌else◌, length, Result-cases, Bool-cases,
}
use cmf_watch_pro_2_os.Base.Int.{ℤ, is_neg}
use cmf_watch_pro_2_os.Json.{Json}
use cmf_watch_pro_2_os.Protocol.Messages.{Message}
use cmf_watch_pro_2_os.Protocol.Decode.{decode, max_frame_size}
use cmf_watch_pro_2_os.Protocol.Framing.{
  Decoder, Round, goes_on, returns, empty_decoder, push, push_byte, deliver, strip_return,
}
use cmf_watch_pro_2_os.Protocol.Framing.Stream.{Round-cases}

module _ {S : Type 0} (json : Json) (handler : Message → S → ℤ × S) (P : S → Type 0) where
  -- The state that a round leaves.
  abbrev left : Round S → S
  left (goes_on d s) = s
  left (returns result d s) = s

  module _ (keeps : (m : Message) (s : S) → P s → P (handler m s).1) where
    answered :
        (answer : ℤ × S)
        → P answer.1
        → P (
            left (
              if is_neg answer.0
              then returns answer.0 empty_decoder answer.1
              else goes_on empty_decoder answer.1))
    answered (result, s) h = elim (Bool-cases (is_neg result)) [
      | inl b ↦ rw (b) h
      | inr b ↦ rw (b) h
    ]

    deliver-keeps : (frame : List ℕ) (s : S) → P s → P (left (deliver json handler frame s))
    unfolding deliver
    deliver-keeps frame s h = elim (Bool-cases (length frame == 0)) [
      | inl e ↦ rw (e) h
      | inr e ↦ elim (Result-cases (decode json frame)) [
        | inl (m, d) ↦ rw (e, d) (answered (handler m s) (keeps m s h))
        | inr (x, d) ↦ rw (e, d) h
      ]
    ]

    push_byte-keeps : (d : Decoder) (b : ℕ) (s : S) → P s → P (left (push_byte json handler d b s))
    unfolding push_byte
    push_byte-keeps d b s h = elim (Bool-cases (b == 10)) [
      | inl e ↦ rw (e) (deliver-keeps (strip_return d.bytes) s h)
      | inr e ↦ elim (Bool-cases (leb max_frame_size (length d.bytes))) [
        | inl full ↦ rw (e, full) h
        | inr room ↦ rw (e, room) h
      ]
    ]

    -- A property of the handler's state that the handler keeps holds after any bytes.
    pub push-keeps : (d : Decoder) (text : List ℕ) (s : S) → P s → P (push json handler d text s).2
    unfolding push
    push-keeps d [] s h = h
    push-keeps d (b ∷ text) s h = elim (Round-cases json handler (push_byte json handler d b s)) [
      | inl (d', s', e) ↦ rw (e, push) (push-keeps d' text s' (rw e at (push_byte-keeps d b s h)))
      | inr (result, d', s', e) ↦ rw (e, push) (rw e at (push_byte-keeps d b s h))
    ]
