-- ===== src/Packet/Checks.antt =====
-- What the checks of src/packet.cpp accept, and what they reject.
use libhdcp.Base.{
  ℕ, ◌≤◌, ◌<◌, ◌≡◌, ◌≢◌, ◌↔◌, inl, inr, List, arith, length, true, Bool-cases, ltb, All, set,
  get_or, take, ok, err, packet_error, invalid_header_crc, invalid_payload_crc, take-set_lt,
  take-set_le, get_or-set_ne, get_or-set_self, length-set, length-take, get_or-take, All-get_or,
}
use libhdcp.Packet.Crc.{compute_crc}
use libhdcp.Packet.CrcLaws.{compute_crc-set}
use libhdcp.Packet.Format.{
  IsByte, Header, header_at, header_size, max_size, max_pl_size, known_type, blocks_of, u16_at,
}
use libhdcp.Packet.Format
use libhdcp.Packet.Parse.{is_known, parse_header, parse_payload}

-- The conditions on the bytes of a header.
pub record IsHeader (v : List ℕ) : Type 0 where
  pub has_size : length v ≡ header_size
  pub has_crc : compute_crc (take 11 v) ≡ u16_at v 11
  pub has_sop : u16_at v 0 ≡ Format.sop
  pub has_ver : get_or v 2 0 ≡ Format.ver
  pub has_type : is_known (known_type (get_or v 7 0)) ≡ true
  pub has_len : u16_at v 3 ≤ max_pl_size

-- `parse_header` accepts exactly the bytes that meet all six conditions, and returns their fields.
pub parse_header_iff :
    (v : List ℕ) (h : Header) → (parse_header v ≡ ok h) ↔ (IsHeader v × (h ≡ header_at v))
unfolding parse_header
parse_header_iff v h = (
  λ e. (
    record {
      has_size = ground arith;
      has_crc = ground arith;
      has_sop = ground arith;
      has_ver = ground arith;
      has_type = ground arith;
      has_len = ground arith;
    },
    ground arith,
  ),
  λ e. ground arith,
)

-- The conditions on a payload under a header.
pub record IsPayload (v : List ℕ) (h : Header) : Type 0 where
  pub has_size : h.len ≡ length v
  pub has_crc : h.p_crc ≡ compute_crc v
  pub has_blocks : h.n_block ≡ length (blocks_of v)

-- `parse_payload` accepts exactly the payloads that meet the three conditions.
pub parse_payload_iff : (v : List ℕ) (h : Header) → (parse_payload v h ≡ ok tt) ↔ IsPayload v h
unfolding parse_payload
parse_payload_iff v h = (
  λ e. record { has_size = ground arith; has_crc = ground arith; has_blocks = ground arith },
  λ e. ground arith,
)

parse_header-bad_crc :
    (v : List ℕ)
    → length v ≡ header_size
    → compute_crc (take 11 v) ≢ u16_at v 11
    → parse_header v ≡ err (packet_error invalid_header_crc)
unfolding parse_header
parse_header-bad_crc v s n = ground arith

-- One byte of a header, which keeps its place under the cut and under the write of another.
module _ (v : List ℕ) (i b : ℕ) (size : length v ≡ header_size) (fits : IsByte b) where
  summed_bytes :
      i < 11
      → IsByte (get_or v i 0)
      → b ≢ get_or v i 0
      → compute_crc (take 11 v) ≡ u16_at v 11
      → compute_crc (take 11 (set v i b)) ≢ u16_at (set v i b) 11
  summed_bytes h old ne e =
      let same = get_or-take 11 v i 0 h in
      rw
        (
          take-set_lt 11 v i b h,
          get_or-set_ne v i 11 b 0 (omega arith),
          get_or-set_ne v i 12 b 0 (omega arith),
          ← e,
        )
        (compute_crc-set (take 11 v) i b (omega (arith, length-take 11 v)) (rw same old) fits
          (rw same ne))

  crc_bytes :
      11 ≤ i
      → i < header_size
      → IsByte (get_or v i 0)
      → b ≢ get_or v i 0
      → compute_crc (take 11 v) ≡ u16_at v 11
      → compute_crc (take 11 (set v i b)) ≢ u16_at (set v i b) 11
  crc_bytes h k old ne e =
      rw (take-set_le 11 v i b h, e)
        (λ q. ground (
          arith,
          get_or-set_self v i b 0 (omega (arith, size)),
          λ (n : ¬ (i ≡ 11)). get_or-set_ne v i 11 b 0 n,
          λ (n : ¬ (i ≡ 12)). get_or-set_ne v i 12 b 0 n,
        ))

-- A change of one byte of an accepted header, the checksum's bytes included, makes
-- `parse_header` throw `invalid_header_crc`.
pub parse_header-set :
    (v : List ℕ) (h : Header) (i b : ℕ)
    → All IsByte v
    → parse_header v ≡ ok h
    → i < header_size
    → IsByte b
    → b ≢ get_or v i 0
    → parse_header (set v i b) ≡ err (packet_error invalid_header_crc)
parse_header-set v h i b bytes e small fits ne =
    let good = ((parse_header_iff v h).0 e).0 in
    let old : IsByte (get_or v i 0) =
      All-get_or IsByte v i 0 bytes (omega (arith, good.has_size)) in
    parse_header-bad_crc (set v i b) (omega (arith, length-set v i b, good.has_size))
      (elim (Bool-cases (ltb i 11)) [
        | inl p ↦ summed_bytes v i b good.has_size fits (ground arith) old ne good.has_crc
        | inr p ↦ crc_bytes v i b good.has_size fits (ground arith) small old ne good.has_crc
      ])

-- A change of one byte of an accepted payload of bytes makes `parse_payload` throw
-- `invalid_payload_crc`.
pub parse_payload-set :
    (v : List ℕ) (h : Header) (i b : ℕ)
    → All IsByte v
    → parse_payload v h ≡ ok tt
    → i < length v
    → IsByte b
    → b ≢ get_or v i 0
    → parse_payload (set v i b) h ≡ err (packet_error invalid_payload_crc)
unfolding parse_payload
parse_payload-set v h i b bytes e small fits ne = ground (
  arith,
  length-set v i b,
  compute_crc-set v i b small (All-get_or IsByte v i 0 bytes small) fits ne,
)
