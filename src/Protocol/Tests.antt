-- ===== src/Protocol/Tests.antt =====
-- Witnesses and runs of the protocol.
use cmf_watch_pro_2_os.Base.{
  ℕ, zero, suc, ◌≤◌, ◌≡◌, refl, ◌↔◌, true, false, List, [], ◌∷◌, ◌++◌, some, arith, length,
  replicate, codes, if◌then◌else◌, ok, span_equal,
}
use cmf_watch_pro_2_os.Base.Int.{ℤ, pos, is_neg}
use cmf_watch_pro_2_os.Json.{Members}
use cmf_watch_pro_2_os.Json.Samples.{sample, frame_text, frame_members, payload_text}
use cmf_watch_pro_2_os.Protocol.Messages.{
  Message, MessageType, MessageTypeEntry, find_type, same_type,
}
use cmf_watch_pro_2_os.Protocol.Utf8.{valid_utf8, next_codepoint}
use cmf_watch_pro_2_os.Protocol.Utf8.Encoding.{Scalars, encode_all}
use cmf_watch_pro_2_os.Protocol.Utf8.Validity.{valid_utf8_iff}
use cmf_watch_pro_2_os.Protocol.Numbers.{parse_u32}
use cmf_watch_pro_2_os.Protocol.Decode.{
  ProtocolError, Envelope, blank_envelope, decode, max_frame_size, validate_payload, read_fields,
  read_field, finish_decode, payload_loop, all_found, mark,
}
use cmf_watch_pro_2_os.Protocol.Decode.Envelopes.{FieldsRead, read_fields-FieldsRead}
use cmf_watch_pro_2_os.Protocol.Decode.Payloads.{Ends, HasKeys, validate_payload_iff}
use cmf_watch_pro_2_os.Protocol.Decode.Accepted.{IsEnvelope, decode-IsEnvelope}
use cmf_watch_pro_2_os.Protocol.Framing.{empty_decoder, error_code, push}
use cmf_watch_pro_2_os.Protocol.Framing.Stream.Frames.{Frame, stream_of, serve, push-stream_of}
use cmf_watch_pro_2_os.Protocol.Framing.Stream.{OneLine, push-append, push-too_large}

-- The euro sign.
abbrev euro : List ℕ
euro = 226 ∷ 130 ∷ 172 ∷ []

valid_utf8_iff_example :
    (valid_utf8 euro ≡ true) ↔ ((cs : List ℕ) × Scalars cs × (euro ≡ encode_all cs))
valid_utf8_iff_example = valid_utf8_iff euro (omega arith)

abbrev patch_entry : MessageTypeEntry
patch_entry = record {
  name = codes "state_patch";
  type = MessageType.state_patch;
  required = codes "path" ∷ codes "value" ∷ codes "revision" ∷ [];
}

validate_payload_iff_example : (validate_payload sample payload_text patch_entry ≡ ok tt) ↔ (
    (ms : Members) × (sample.members payload_text ≡ some ms)
    × Ends ms
    × HasKeys patch_entry.required ms)
validate_payload_iff_example = validate_payload_iff sample payload_text patch_entry

abbrev patch : Message
patch = record {
  type = MessageType.state_patch;
  id = 9;
  reply_to = 0;
  has_reply_to = false;
  payload = payload_text;
}

frame_decodes : decode sample frame_text ≡ ok patch
unfolding decode valid_utf8 next_codepoint span_equal read_fields read_field parse_u32 finish_decode
    find_type same_type validate_payload payload_loop all_found mark
frame_decodes = refl

abbrev frame_envelope : Envelope
frame_envelope = record {
  entry = some patch_entry;
  version = 1;
  id = 9;
  reply_to = 0;
  has_reply_to = false;
  payload = payload_text;
  seen_version = true;
  seen_type = true;
  seen_id = true;
  seen_payload = true;
}

decode-IsEnvelope_example :
    (1 ≤ length frame_text)
    × (length frame_text ≤ max_frame_size)
    × (valid_utf8 frame_text ≡ true)
    × (ms : Members) × (e : MessageTypeEntry) × (sample.members frame_text ≡ some ms)
    × Ends ms
    × IsEnvelope sample ms e patch
decode-IsEnvelope_example = decode-IsEnvelope sample frame_text patch frame_decodes

-- A handler that notes the ids.
abbrev note : Message → List ℕ → ℤ × List ℕ
note m ids = (pos 0, m.id ∷ ids)

push-append_example : push sample note empty_decoder (frame_text ++ 10 ∷ frame_text) [] ≡ (
    let (result, d', s') = push sample note empty_decoder frame_text [] in
    if is_neg result then (result, d', s') else push sample note d' (10 ∷ frame_text) s')
push-append_example = push-append sample note empty_decoder frame_text (10 ∷ frame_text) []

-- The same frame twice, once with a carriage return, and an empty one between them.
abbrev frames : List Frame
frames =
    record { text = frame_text; returned = true }
    ∷ record { text = []; returned = false }
    ∷ record { text = frame_text; returned = false }
    ∷ []

push-stream_of_example :
    push sample note empty_decoder (stream_of frames) [] ≡ serve sample note frames []
push-stream_of_example = push-stream_of sample note frames [] (omega arith)

-- As many letters as the buffer holds.
abbrev letters : ℕ → List ℕ
letters n = replicate n 65

letters-OneLine : (n : ℕ) → OneLine (letters n)
letters-OneLine zero = tt
letters-OneLine (suc n) = (omega arith, letters-OneLine n)

letters-length : (n : ℕ) → length (letters n) ≡ n
letters-length zero = refl
letters-length (suc n) = omega (arith, letters-length n)

push-too_large_example :
    push sample note empty_decoder (letters 16384 ++ 13 ∷ 10 ∷ []) []
    ≡ (error_code ProtocolError.frame_too_large, empty_decoder, [])
push-too_large_example =
    push-too_large sample note (letters 16384) 13 (10 ∷ []) [] (letters-OneLine 16384)
      (letters-length 16384) (omega arith)

frame_fields : read_fields blank_envelope frame_members ≡ ok frame_envelope
unfolding read_fields read_field span_equal parse_u32 find_type
frame_fields = refl

read_fields-FieldsRead_example : FieldsRead blank_envelope frame_members frame_envelope
read_fields-FieldsRead_example = read_fields-FieldsRead blank_envelope frame_members frame_fields
