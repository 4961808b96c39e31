-- ===== src/Packet/Written.antt =====
-- What the checks say of bytes that the constructors wrote.
use libhdcp.Base.{
  ℕ, ◌%◌, ◌^◌, ◌≡◌, refl, List, [], ◌++◌, arith, length, true, leb, ◌==◌, if◌then◌else◌, ok, err,
  packet_error, invalid_number_of_block, payload_exceed_max_size, take-length,
}
use libhdcp.Packet.Crc.{compute_crc}
use libhdcp.Packet.Format.{
  Header, header_prefix, header_bytes, header_at, header_size, max_pl_size, IsU16, le16, u16_at,
  known_type, type_code, PacketType, hip, blocks_of,
}
use libhdcp.Packet.Format
use libhdcp.Packet.Layout.{HeaderFits, header_at-header_bytes, compute_crc_fits}
use libhdcp.Packet.Parse.{is_known, parse_header, parse_payload, from_view}
use libhdcp.Packet.Make.{unsigned_header, make_header, make_packet}

-- A header as `make_header` fills it in.
pub record IsSigned (h : Header) : Type 0 where
  pub fits : HeaderFits h
  pub has_sop : h.sop ≡ Format.sop
  pub has_ver : h.ver ≡ Format.ver
  pub has_type : is_known (known_type h.type) ≡ true
  pub has_crc : h.h_crc ≡ compute_crc (header_prefix h)

pub parse_header-header_bytes :
    (h : Header)
    → IsSigned h
    → parse_header (header_bytes h)
      ≡ (if leb h.len max_pl_size then ok h else err (packet_error payload_exceed_max_size))
unfolding parse_header
parse_header-header_bytes h s = ground (arith, header_at-header_bytes h [] s.fits)

pub from_view-header_bytes :
    (h : Header) (v : List ℕ)
    → IsSigned h
    → h.len ≡ length v
    → h.p_crc ≡ compute_crc v
    → from_view (header_bytes h ++ v) ≡ (
        if leb h.len max_pl_size
        then (if h.n_block == length (blocks_of v)
            then ok (record { data_ = header_bytes h ++ v })
            else err (packet_error invalid_number_of_block))
        else err (packet_error payload_exceed_max_size))
unfolding from_view parse_payload
from_view-header_bytes h v s e c = ground (arith, parse_header-header_bytes h s, take-length v)

is_known-type_code : (t : PacketType) → is_known (known_type (type_code t)) ≡ true
unfolding known_type
is_known-type_code hip = refl
is_known-type_code _ = refl

-- The header that `make_header` writes.
abbrev pub made_header : ℕ → PacketType → ℕ → List ℕ → Header
made_header id type n_block v =
    let h = unsigned_header id type (n_block % 2 ^ 8) v in
    record h { h_crc = compute_crc (header_prefix h) }

pub made_header-IsSigned :
    (id : ℕ) (t : PacketType) (n : ℕ) (v : List ℕ) → IsU16 id → IsSigned (made_header id t n v)
made_header-IsSigned id t n v h = record {
  fits = record {
    sop_fits = omega arith;
    len_fits = omega arith;
    id_fits = h;
    p_crc_fits = compute_crc_fits v;
    h_crc_fits = compute_crc_fits _;
  };
  has_sop = refl;
  has_ver = refl;
  has_type = is_known-type_code t;
  has_crc = refl;
}

-- Every branch of the constructors, for a payload whose size fits the field `len`.
pub make_packet_lem :
    (id : ℕ) (t : PacketType) (n : ℕ) (v : List ℕ)
    → IsU16 id
    → IsU16 (length v)
    → make_packet id t n v ≡ (
        if leb (length v) max_pl_size
        then (if (n % 2 ^ 8) == length (blocks_of v)
            then ok (record { data_ = header_bytes (made_header id t n v) ++ v })
            else err (packet_error invalid_number_of_block))
        else err (packet_error payload_exceed_max_size))
unfolding make_packet make_header
make_packet_lem id t n v h k =
    let small : length v % 2 ^ 16 ≡ length v = omega arith in
    rw (
      from_view-header_bytes (made_header id t n v) v (made_header-IsSigned id t n v h) small refl,
      small,
    )
