-- ===== src/Packet/CrcLaws.antt =====
-- What `compute_crc` detects.
use libhdcp.Base.{
  ℕ, zero, suc, ◌+◌, ◌*◌, ◌%◌, ◌^◌, ◌<◌, ◌≡◌, ◌≢◌, refl, ap, ◌∙◌, List, [], ◌∷◌, ◌++◌, arith,
  length, set, get_or,
}
use libhdcp.Packet.Crc.{crc_loop, compute_crc}
use libhdcp.Packet.Format.{IsByte}
use native.Mathlib.Nat.{div-add-mod}

-- The sum of the bytes, and their sum with the weights n, n - 1, ..., 1.
abbrev pub sum : List ℕ → ℕ
sum [] = 0
sum (c ∷ v) = c + sum v

abbrev pub weighted_sum : List ℕ → ℕ
weighted_sum [] = 0
weighted_sum (c ∷ v) = suc (length v) * c + weighted_sum v

crc_loop_lem :
    (a b : ℕ) (v : List ℕ)
    → a < 2 ^ 8
    → b < 2 ^ 8
    → crc_loop a b v ≡ (a + sum v) % 2 ^ 8 * 2 ^ 8 + (b + length v * a + weighted_sum v) % 2 ^ 8
unfolding crc_loop
crc_loop_lem a b [] ha hb = omega arith
crc_loop_lem a b (c ∷ v) ha hb =
    let a' : ℕ = (a + c) % 2 ^ 8 in
    crc_loop_lem a' ((b + a') % 2 ^ 8) v (omega arith) (omega arith)
    ∙ omega (arith, ap (λ (t : ℕ). length v * t) (div-add-mod (a + c) (2 ^ 8)))

-- The checksum is the sum of the bytes in the high byte and their weighted sum in the low byte,
-- both modulo 256.
pub compute_crc_lem : (v : List ℕ) → compute_crc v ≡ sum v % 2 ^ 8 * 2 ^ 8 + weighted_sum v % 2 ^ 8
unfolding compute_crc
compute_crc_lem v = crc_loop_lem 0 0 v (omega arith) (omega arith) ∙ omega arith

sum-set : (v : List ℕ) (i b : ℕ) → i < length v → sum (set v i b) + get_or v i 0 ≡ sum v + b
sum-set [] i b h = absurd (omega arith)
sum-set (c ∷ v) zero b h = omega arith
sum-set (c ∷ v) (suc i) b h = omega (arith, sum-set v i b (omega arith))

-- A change of one byte changes the checksum.
pub compute_crc-set :
    (v : List ℕ) (i b : ℕ)
    → i < length v
    → IsByte (get_or v i 0)
    → IsByte b
    → b ≢ get_or v i 0
    → compute_crc (set v i b) ≢ compute_crc v
compute_crc-set v i b h old new ne e =
    ne (omega (arith, compute_crc_lem v, compute_crc_lem (set v i b), sum-set v i b h))

weighted_sum-swap :
    (u : List ℕ) (a b : ℕ) (v : List ℕ)
    → weighted_sum (u ++ (a ∷ b ∷ v)) + b ≡ weighted_sum (u ++ (b ∷ a ∷ v)) + a
weighted_sum-swap [] a b v = omega arith
weighted_sum-swap (c ∷ u) a b v =
    omega (arith, weighted_sum-swap u a b v, ap (λ (t : ℕ). suc t * c) (length-swap u))
  where
    length-swap : (u : List ℕ) → length (u ++ (a ∷ b ∷ v)) ≡ length (u ++ (b ∷ a ∷ v))
    length-swap [] = refl
    length-swap (d ∷ u) = ap suc (length-swap u)

-- An exchange of two neighbours that differ changes the checksum.
pub compute_crc-swap :
    (u : List ℕ) (a b : ℕ) (v : List ℕ)
    → IsByte a
    → IsByte b
    → a ≢ b
    → compute_crc (u ++ (a ∷ b ∷ v)) ≢ compute_crc (u ++ (b ∷ a ∷ v))
compute_crc-swap u a b v ha hb ne e = ne (
    omega (
      arith,
      compute_crc_lem (u ++ (a ∷ b ∷ v)),
      compute_crc_lem (u ++ (b ∷ a ∷ v)),
      weighted_sum-swap u a b v,
    ))
