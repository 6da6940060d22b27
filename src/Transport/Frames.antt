-- ===== src/Transport/Frames.antt =====
-- The lines that transport.c prints by `snprintk`.
pub mod Numerals
use cmf_watch_pro_2_os.Base.{
  ℕ, zero, suc, ◌+◌, ◌-◌, ◌*◌, ◌/◌, ◌%◌, ◌^◌, Bool, List, [], ◌∷◌, ◌++◌, ltb, ◌&&◌, if◌then◌else◌,
  length, codes, copy_text,
}

-- A numeral of at most `fuel` digits, the first one not 0 unless it is the only one.
unfoldable pub digits_of : ℕ → ℕ → List ℕ
digits_of zero n = []
digits_of (suc fuel) n =
    let front = digits_of fuel (n / 10) in
    if ltb n 10 then (b'0' + n) ∷ [] else front ++ (b'0' + n % 10) ∷ []

-- `%u` of a uint32_t has at most 10 digits, `%llu` of a uint64_t at most 20.
abbrev pub decimal_u32 : ℕ → List ℕ
decimal_u32 n = digits_of 10 n

abbrev pub decimal_u64 : ℕ → List ℕ
decimal_u64 n = digits_of 20 n

abbrev hex_digit : ℕ → ℕ
hex_digit d = if ltb d 10 then b'0' + d else b'a' + (d - 10)

-- `%04x` and `%08x` of a number that has no more digits than that.
unfoldable pub hexadecimal : ℕ → ℕ → List ℕ
hexadecimal zero n = []
hexadecimal (suc width) n = hexadecimal width (n / 16) ++ hex_digit (n % 16) ∷ []

-- A format string with two directives, as the texts before, between and after them.
pub record Format : Type 0 where
  pub head : List ℕ
  pub middle : List ℕ
  pub tail : List ℕ

unfoldable pub print : Format → List ℕ → List ℕ → List ℕ
print f a b = f.head ++ a ++ f.middle ++ b ++ f.tail

-- The format of the line that `send_bootstrap` begins with.
abbrev pub hello_format : Format
hello_format = record {
  head = codes "{\"version\":1,\"type\":\"hello\",\"id\":";
  middle = codes ",\"payload\":{\"device_id\":\"cmf-watch-pro-2-sim\",\"session_id\":\"";
  tail = codes "\",\"runtime_version\":\"0.1.0\",\"protocol_versions\":[1],\"simulator\":true}}\n";
}

abbrev pub unsupported_format : Format
unsupported_format = record {
  head = codes "{\"version\":1,\"type\":\"command_result\",\"id\":";
  middle = codes ",\"reply_to\":";
  tail = codes ",\"payload\":{\"status\":\"rejected\",\"code\":\"unsupported\"}}\n";
}

abbrev pub sync_format : Format
sync_format = record {
  head = codes "{\"version\":1,\"type\":\"sync_request\",\"id\":";
  middle = codes ",\"payload\":{\"last_revision\":";
  tail = codes "}}\n";
}

abbrev pub music_format : Format
music_format = record {
  head = codes "{\"version\":1,\"type\":\"action\",\"id\":";
  middle =
      codes
        ",\"payload\":{\"app_id\":\"music\",\"action_id\":\"set_playing\",\"arguments\":{\"playing\":";
  tail = codes "}}}\n";
}

unfoldable pub hello_frame : ℕ → List ℕ → List ℕ
hello_frame id session_id = print hello_format (decimal_u32 id) session_id

unfoldable pub unsupported_frame : ℕ → ℕ → List ℕ
unsupported_frame id reply_to = print unsupported_format (decimal_u32 id) (decimal_u32 reply_to)

unfoldable pub sync_frame : ℕ → ℕ → List ℕ
sync_frame id last_revision = print sync_format (decimal_u32 id) (decimal_u64 last_revision)

abbrev pub playing_text : Bool → List ℕ
playing_text playing = if playing then codes "true" else codes "false"

unfoldable pub music_frame : ℕ → Bool → List ℕ
music_frame id playing = print music_format (decimal_u32 id) (playing_text playing)

-- `length > 0 && (size_t)length < sizeof(frame)`, of what `snprintk` returns.
abbrev pub fits : ℕ → List ℕ → Bool
fits capacity text = ltb 0 (length text) && ltb (length text) capacity

-- The identifier from four random numbers, the last field in two parts. The bits of its version and
-- variant are set before.
unfoldable pub session_text : ℕ → ℕ → ℕ → ℕ → List ℕ
session_text r0 r1 r2 r3 = copy_text 37 (
    hexadecimal 8 r0
    ++ codes "-"
    ++ hexadecimal 4 (r1 / 2 ^ 16)
    ++ codes "-"
    ++ hexadecimal 4 (r1 % 2 ^ 16)
    ++ codes "-"
    ++ hexadecimal 4 (r2 / 2 ^ 16)
    ++ codes "-"
    ++ hexadecimal 4 (r2 % 2 ^ 16)
    ++ hexadecimal 8 r3)
