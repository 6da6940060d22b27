-- ===== src/Transport/Tests.antt =====
-- Witnesses and runs of the transport.
use cmf_watch_pro_2_os.Base.{
  ℕ, ◌≡◌, refl, true, List, ◌++◌, some, arith, codes, take, length, ok, min,
}
use cmf_watch_pro_2_os.Protocol.Numbers.{parse_u32}
use cmf_watch_pro_2_os.Sync.Values.{parse_u64}
use cmf_watch_pro_2_os.Transport.Frames.{
  decimal_u32, decimal_u64, digits_of, hello_frame, unsupported_frame, sync_frame, music_frame,
  fits, hexadecimal,
}
use cmf_watch_pro_2_os.Transport.Frames.Numerals.{number_token, parse-decimal, frames-fit}
use cmf_watch_pro_2_os.Transport.Link
use cmf_watch_pro_2_os.Transport.Link.{Network, System, again}
use cmf_watch_pro_2_os.Transport.Sending.{send_bytes}
use cmf_watch_pro_2_os.Transport.Sending.Delivery.{Wire, Delivered, send_bytes-Delivered}

digits_of_zero : digits_of 10 0 ≡ codes "0"
unfolding digits_of
digits_of_zero = refl

hexadecimal_byte : hexadecimal 4 0x4a0f ≡ codes "4a0f"
unfolding hexadecimal
hexadecimal_byte = refl

parse-decimal_example :
    (parse_u32 (number_token (decimal_u32 4294967295)) ≡ ok 4294967295)
    × (parse_u64 (number_token (decimal_u64 0)) ≡ ok 0)
parse-decimal_example = parse-decimal 4294967295 0 (omega arith) (omega arith)

abbrev session : List ℕ
session = codes "00000001-0002-4003-8004-000000000005"

frames-fit_example :
    (fits 512 (hello_frame 1 session) ≡ true)
    × (fits 256 (unsupported_frame 1 7) ≡ true)
    × (fits 192 (sync_frame 1 18446744073709551615) ≡ true)
    × (fits 256 (music_frame 1 true) ≡ true)
frames-fit_example = frames-fit 1 7 18446744073709551615 true session (omega arith)

-- A network that takes at most two bytes at a time, on the bytes that the host has got.
abbrev slow : Network (List ℕ)
slow = record {
  uptime = λ w. (0, w);
  uptime_bounded = λ w. omega arith;
  random = λ w. (7, w);
  open_socket = λ w. (some 3, w);
  connect = λ fd w. (true, w);
  close = λ fd w. w;
  send = λ fd bytes w. (min 2 (length bytes), w ++ take (min 2 (length bytes)) bytes);
  receive = λ fd size w. (again, w);
}

abbrev wire : Wire slow
wire = record { sent = λ fd w. w; adds = λ fd bytes w. refl; bounded = λ fd bytes w. omega arith }

abbrev open_system : System Unit (List ℕ)
open_system = record {
  link = record (Link.initial) { socket_fd = some 3 };
  app = tt;
  world = codes "x";
}

send_bytes-Delivered_example :
    let (result, sys) = send_bytes slow (codes "hello") open_system in
    Delivered slow wire 3 (codes "hello") (codes "x") (result, sys.world)
send_bytes-Delivered_example = send_bytes-Delivered slow wire open_system (codes "hello") 3 refl
