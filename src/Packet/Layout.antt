-- ===== src/Packet/Layout.antt =====
-- The bytes of a header, read back.
use libhdcp.Base.{ℕ, ◌+◌, ◌%◌, ◌^◌, ◌<◌, ◌≡◌, List, [], ◌∷◌, ◌++◌, arith}
use libhdcp.Packet.Crc.{crc_loop, compute_crc}
use libhdcp.Packet.Format.{Header, header_bytes, header_at, IsU16, le16, u16_at}

-- The numbers of a header fit the fields of the structure.
pub record HeaderFits (h : Header) : Type 0 where
  pub sop_fits : IsU16 h.sop
  pub len_fits : IsU16 h.len
  pub id_fits : IsU16 h.id
  pub p_crc_fits : IsU16 h.p_crc
  pub h_crc_fits : IsU16 h.h_crc

pub u16_at-le16 : (n : ℕ) (rest : List ℕ) → IsU16 n → u16_at (le16 n ++ rest) 0 ≡ n
u16_at-le16 n rest h = omega arith

-- A header is read back from its bytes, whatever stands behind them.
pub header_at-header_bytes :
    (h : Header) (rest : List ℕ) → HeaderFits h → header_at (header_bytes h ++ rest) ≡ h
header_at-header_bytes h rest f = ground arith

crc_loop_fits : (a b : ℕ) (v : List ℕ) → a < 2 ^ 8 → b < 2 ^ 8 → IsU16 (crc_loop a b v)
unfolding crc_loop
crc_loop_fits a b [] ha hb = omega arith
crc_loop_fits a b (c ∷ v) ha hb =
    crc_loop_fits ((a + c) % 2 ^ 8) ((b + (a + c) % 2 ^ 8) % 2 ^ 8) v (omega arith) (omega arith)

pub compute_crc_fits : (v : List ℕ) → IsU16 (compute_crc v)
unfolding compute_crc
compute_crc_fits v = crc_loop_fits 0 0 v (omega arith) (omega arith)
