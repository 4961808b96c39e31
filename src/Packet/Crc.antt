-- ===== src/Packet/Crc.antt =====
-- `Packet::compute_crc` of src/packet.cpp.
use libhdcp.Base.{ℕ, ◌+◌, ◌*◌, ◌%◌, ◌^◌, List, [], ◌∷◌}

-- The loop over the bytes; the two uint8_t sums wrap. `CRCA << 8 | CRCB` joins disjoint bits.
unfoldable pub crc_loop : ℕ → ℕ → List ℕ → ℕ
crc_loop crca crcb [] = crca * 2 ^ 8 + crcb
crc_loop crca crcb (c ∷ v) =
    let crca' = (crca + c) % 2 ^ 8 in crc_loop crca' ((crcb + crca') % 2 ^ 8) v

unfoldable pub compute_crc : List ℕ → ℕ
unfolding crc_loop
compute_crc v = crc_loop 0 0 v
