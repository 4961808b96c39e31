-- ===== src/Packet/RoundTrip.antt =====
-- The constructors against the accessors of a packet.
use libhdcp.Base.{
  ℕ, ◌+◌, ◌%◌, ◌^◌, ◌≤◌, ◌<◌, ◌≡◌, refl, sym, ap, ◌∙◌, List, ◌++◌, arith, length, ok, some, All,
  take-length,
}
use libhdcp.Packet.Format.{
  PacketType, hip, known_type, type_code, header_bytes, BlockView, max_pl_size, header_size, IsU16,
}
use libhdcp.Packet.Parse.{
  Packet, id, version, type, nb_block, blocks, payload, size, header, check_header, check_payload,
  parse_payload,
}
use libhdcp.Packet.Make.{make_blocks}
use libhdcp.Packet.Layout.{header_at-header_bytes}
use libhdcp.Packet.Written.{made_header, made_header-IsSigned, parse_header-header_bytes}
use libhdcp.Packet.Checks.{parse_payload_iff}
use mathlib.Core.Path.{ap₂}
use libhdcp.Packet.Blocks.{BlockFits, total_size, length-make_blocks, blocks_of-make_blocks}

-- The packet that carries `bs`, byte by byte.
unfoldable pub packet_of : ℕ → PacketType → List BlockView → Packet
packet_of id t bs = record {
  data_ = header_bytes (made_header id t (length bs) (make_blocks bs)) ++ make_blocks bs;
}

-- A packet that passes both checks.
pub record IsWhole (p : Packet) : Type 0 where
  pub header_checked : check_header p ≡ ok (header p)
  pub payload_checked : check_payload p ≡ ok tt

-- What the checks and the accessors answer about a packet with this number, type and content.
pub record Carries (p : Packet) (n : ℕ) (t : PacketType) (bs : List BlockView) : Type 0 where
  pub has_id : id p ≡ n
  pub has_version : version p ≡ 1
  pub has_type : type p ≡ some t
  pub has_nb_block : nb_block p ≡ length bs
  pub has_blocks : blocks p ≡ bs
  pub has_size : size p ≡ header_size + total_size bs
  pub is_whole : IsWhole p

-- Blocks that one packet can hold.
pub record Fitting (bs : List BlockView) : Type 0 where
  pub each : All BlockFits bs
  pub few : length bs < 2 ^ 8
  pub small : total_size bs ≤ max_pl_size

known_type-type_code : (t : PacketType) → known_type (type_code t) ≡ some t
unfolding known_type
known_type-type_code hip = refl
known_type-type_code _ = refl

module _ (n : ℕ) (t : PacketType) (bs : List BlockView) (n_fits : IsU16 n) (f : Fitting bs) where
  header_lem : header (packet_of n t bs) ≡ made_header n t (length bs) (make_blocks bs)
  unfolding packet_of
  header_lem =
      header_at-header_bytes (made_header n t (length bs) (make_blocks bs)) (make_blocks bs)
        (made_header-IsSigned n t (length bs) (make_blocks bs) n_fits).fits

  payload_lem : payload (packet_of n t bs) ≡ make_blocks bs
  unfolding packet_of
  payload_lem =
      let len : length (make_blocks bs) % 2 ^ 16 ≡ length (make_blocks bs) =
        omega (arith, length-make_blocks bs, f.small) in
      rw (ap (λ h. h.len) header_lem, len) (take-length (make_blocks bs))

  packet_of-IsWhole : IsWhole (packet_of n t bs)
  unfolding packet_of check_header check_payload
  packet_of-IsWhole =
      let h = made_header n t (length bs) (make_blocks bs) in
      let len : h.len ≡ length (make_blocks bs) = omega (arith, length-make_blocks bs, f.small) in
      record {
        header_checked =
            parse_header-header_bytes h
              (made_header-IsSigned n t (length bs) (make_blocks bs) n_fits)
            ∙ ground (arith, len, length-make_blocks bs, f.small)
            ∙ ap ok (sym header_lem);
        payload_checked =
            ap₂ parse_payload payload_lem header_lem
            ∙ (parse_payload_iff (make_blocks bs) h).1 (record {
              has_size = len;
              has_crc = refl;
              has_blocks = rw (blocks_of-make_blocks bs f.each) (omega (arith, f.few));
            });
      }

  -- The accessors read back what the packet was made of.
  pub packet_of-Carries : Carries (packet_of n t bs) n t bs
  packet_of-Carries = record {
    has_id = ap (λ h. h.id) header_lem;
    has_version = ap (λ h. h.ver) header_lem;
    has_type = rw (ap (λ h. h.type) header_lem) (known_type-type_code t);
    has_nb_block = rw (ap (λ h. h.n_block) header_lem) (omega (arith, f.few));
    has_blocks = rw payload_lem (blocks_of-make_blocks bs f.each);
    has_size = rw payload_lem (omega (arith, length-make_blocks bs));
    is_whole = packet_of-IsWhole;
  }
