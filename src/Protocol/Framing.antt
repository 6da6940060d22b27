-- ===== src/Protocol/Framing.antt =====
-- `watch_frame_decoder_push` of watch_protocol.c, for any handler and any state that the handler
-- changes (its `context`).
pub mod Stream
pub mod Kept
use cmf_watch_pro_2_os.Base.{
  ℕ, ◌+◌, Bool, true, false, List, [], ◌∷◌, ◌++◌, leb, ◌==◌, if◌then◌else◌, length, Result, ok, err,
}
use cmf_watch_pro_2_os.Base.Int.{ℤ, pos, negsuc, is_neg}
use cmf_watch_pro_2_os.Json.{Json}
use cmf_watch_pro_2_os.Protocol.Messages.{Message}
use cmf_watch_pro_2_os.Protocol.Decode.{ProtocolError, decode, max_frame_size}

-- `struct watch_frame_decoder`: the first `length` bytes of the buffer.
pub record Decoder : Type 0 where
  pub bytes : List ℕ

abbrev pub empty_decoder : Decoder
empty_decoder = record { bytes = [] }

-- The value of an `enum watch_protocol_result`.
abbrev pub error_code : ProtocolError → ℤ
error_code ProtocolError.invalid_json = negsuc 0
error_code ProtocolError.invalid_utf8 = negsuc 1
error_code ProtocolError.frame_too_large = negsuc 2
error_code ProtocolError.unsupported_version = negsuc 3
error_code ProtocolError.unknown_type = negsuc 4
error_code ProtocolError.missing_field = negsuc 5

-- A carriage return at the end does not belong to the frame.
unfoldable pub strip_return : List ℕ → List ℕ
strip_return [] = []
strip_return (b ∷ []) = if b == 13 then [] else b ∷ []
strip_return (b ∷ c ∷ bytes) = b ∷ strip_return (c ∷ bytes)

-- One round of the loop goes on or returns from the function.
pub data Round (S : Type 0) : Type 0 where
  goes_on : Decoder → S → Round S
  returns : ℤ → Decoder → S → Round S

module _ {S : Type 0} (json : Json) (handler : Message → S → ℤ × S) where
  -- What a newline does with the bytes before it.
  unfoldable pub deliver : List ℕ → S → Round S
  deliver frame s =
      if length frame == 0 then goes_on empty_decoder s else elim (decode json frame) [
        | err e ↦ returns (error_code e) empty_decoder s
        | ok m ↦
            (let (result, s') = handler m s in
              if is_neg result then returns result empty_decoder s' else goes_on empty_decoder s')
      ]

  unfoldable pub push_byte : Decoder → ℕ → S → Round S
  push_byte d b s =
      if b == 10
      then deliver (strip_return d.bytes) s
      else if leb max_frame_size (length d.bytes)
      then returns (error_code ProtocolError.frame_too_large) empty_decoder s
      else goes_on (record { bytes = d.bytes ++ b ∷ [] }) s

  unfoldable pub push : Decoder → List ℕ → S → ℤ × Decoder × S
  push d [] s = (pos 0, d, s)
  push d (b ∷ bytes) s = elim (push_byte d b s) [
    | goes_on d' s' ↦ push d' bytes s'
    | returns result d' s' ↦ (result, d', s')
  ]
