-- ===== src/Examples/Packets.antt =====
-- Packets and their theorems at concrete inputs.
use libhdcp.Base.{
  invalid_payload_crc, ℕ, ◌↔◌, ◌%◌, ◌+◌, ◌*◌, ◌^◌, ◌≡◌, ◌≢◌, refl, List, [], ◌∷◌, arith, set, take,
  ok, err, packet_error, invalid_header_crc,
}
use libhdcp.Packet.Crc.{compute_crc}
use libhdcp.Packet.CrcLaws.{compute_crc_lem, weighted_sum}
use libhdcp.Packet.Format.{
  BlockView, known_type, make_block, blocks_loop, blocks_of, data_packet, cmd, cmd_ack, ka, ka_ack,
  hip, dip, max_pl_size, max_size, u16_at, header_at,
}
use libhdcp.Packet.Format
use libhdcp.Packet.Parse.{
  Packet, find, from_view, parse_header, parse_payload, check_header, check_payload, header,
}
use libhdcp.Packet.Make.{make_packet, make_data, make_keepalive}
use libhdcp.Packet.Blocks.{blocks_loop_fuel}
use libhdcp.Packet.RoundTrip.{Carries, packet_of}
use libhdcp.Packet.Constructors.{make_data_lem, make_data-Carries}
use libhdcp.Packet.Checks.{IsHeader, parse_header_iff, parse_header-set, parse_payload-set}
use libhdcp.Packet.View.{from_view-aligned, from_view-misaligned}

abbrev two_blocks : List BlockView
two_blocks =
    record { type = 7; content = 1 ∷ 2 ∷ 3 ∷ [] } ∷ record { type = 258; content = [] } ∷ []

-- The keep-alive packet number 15 of test/packet_test.cpp.
abbrev keepalive_bytes : List ℕ
keepalive_bytes = 0xFE ∷ 0xCA ∷ 1 ∷ 0 ∷ 0 ∷ 15 ∷ 0 ∷ 2 ∷ 0 ∷ 0 ∷ 0 ∷ 57 ∷ 218 ∷ []

abbrev keepalive_packet : Packet
keepalive_packet = record { data_ = keepalive_bytes }

keepalive_made : make_keepalive 15 ≡ ok keepalive_packet
unfolding make_keepalive make_packet parse_header parse_payload known_type compute_crc blocks_of
keepalive_made = refl

blocks_loop_fuel_example :
    blocks_loop 7 (1 ∷ 0 ∷ 1 ∷ 0 ∷ 5 ∷ []) ≡ blocks_loop 5 (1 ∷ 0 ∷ 1 ∷ 0 ∷ 5 ∷ [])
blocks_loop_fuel_example = blocks_loop_fuel 7 5 (1 ∷ 0 ∷ 1 ∷ 0 ∷ 5 ∷ []) (omega arith) (omega arith)

make_data_lem_example : make_data 3 two_blocks ≡ ok (packet_of 3 data_packet two_blocks)
make_data_lem_example = make_data_lem 3 two_blocks (omega arith) (omega arith) (omega arith)

make_data-Carries_example :
    (p : Packet) × (make_data 3 two_blocks ≡ ok p) × Carries p 3 data_packet two_blocks
make_data-Carries_example = make_data-Carries 3 two_blocks (omega arith) (omega arith)

keepalive_header : parse_header keepalive_bytes ≡ ok (header_at keepalive_bytes)
unfolding parse_header compute_crc known_type
keepalive_header = refl

parse_header-set_example :
    parse_header (set keepalive_bytes 5 16) ≡ err (packet_error invalid_header_crc)
parse_header-set_example =
    parse_header-set keepalive_bytes (header_at keepalive_bytes) 5 16 (omega arith) keepalive_header
      (omega arith) (omega arith) (omega arith)

abbrev small_payload : List ℕ
small_payload = 7 ∷ 0 ∷ 1 ∷ 0 ∷ 9 ∷ []

abbrev small_header : Format.Header
small_header = record {
  sop = Format.sop;
  ver = Format.ver;
  len = 5;
  id = 1;
  type = 0x44;
  n_block = 1;
  p_crc = 17 * 256 + 47;
  h_crc = 0;
}

keepalive_view : from_view keepalive_bytes ≡ ok keepalive_packet
unfolding from_view parse_header parse_payload known_type compute_crc blocks_of
keepalive_view = refl

from_view-aligned_example :
    (check_header keepalive_packet ≡ ok (header keepalive_packet))
    × (check_payload keepalive_packet ≡ ok tt)
unfolding find
from_view-aligned_example = from_view-aligned keepalive_bytes keepalive_packet keepalive_view refl

-- One stray byte before the packet is accepted, and the copy loses the last byte instead of it.
stray_view : from_view (0 ∷ keepalive_bytes) ≡ ok (record { data_ = 0 ∷ take 12 keepalive_bytes })
unfolding from_view parse_header parse_payload known_type compute_crc blocks_of
stray_view = refl

from_view-misaligned_example :
    check_header (record { data_ = 0 ∷ take 12 keepalive_bytes }) ≢ ok (header_at keepalive_bytes)
unfolding find
from_view-misaligned_example =
    from_view-misaligned (0 ∷ keepalive_bytes) (record { data_ = 0 ∷ take 12 keepalive_bytes }) 0
      (header_at keepalive_bytes) (omega arith) stray_view refl

compute_crc_lem_example :
    compute_crc (200 ∷ 100 ∷ []) ≡ 300 % 2 ^ 8 * 2 ^ 8 + weighted_sum (200 ∷ 100 ∷ []) % 2 ^ 8
compute_crc_lem_example = compute_crc_lem (200 ∷ 100 ∷ [])

parse_header_iff_example :
    (parse_header keepalive_bytes ≡ ok (header_at keepalive_bytes))
    ↔ (IsHeader keepalive_bytes × (header_at keepalive_bytes ≡ header_at keepalive_bytes))
parse_header_iff_example = parse_header_iff keepalive_bytes (header_at keepalive_bytes)

small_payload_checked : parse_payload small_payload small_header ≡ ok tt
unfolding parse_payload compute_crc blocks_of
small_payload_checked = refl

parse_payload-set_example :
    parse_payload (set small_payload 4 8) small_header ≡ err (packet_error invalid_payload_crc)
parse_payload-set_example =
    parse_payload-set small_payload small_header 4 8 (omega arith) small_payload_checked
      (omega arith) (omega arith) (omega arith)
