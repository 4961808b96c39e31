-- ===== src/Packet/Blocks.antt =====
-- Blocks, written and read back.
use libhdcp.Base.{
  ℕ, zero, suc, ◌+◌, ◌*◌, ◌^◌, ◌≤◌, ◌≡◌, refl, ap, ◌∙◌, List, [], ◌∷◌, ◌++◌, arith, length, drop,
  All, take-append, drop-append, length-append, length-drop,
}
use libhdcp.Packet.Format.{BlockView, block_size, make_block, blocks_loop, blocks_of, IsU16, u16_at}
use libhdcp.Packet.Layout.{u16_at-le16}
use libhdcp.Packet.Make.{make_blocks}

-- The block type and the size of the content fit a uint16_t.
pub record BlockFits (b : BlockView) : Type 0 where
  pub type_fits : IsU16 b.type
  pub content_fits : IsU16 (length b.content)

-- The bytes that blocks take in a payload.
abbrev pub total_size : List BlockView → ℕ
total_size [] = 0
total_size (b ∷ bs) = block_size b + total_size bs

pub length-make_block : (b : BlockView) → length (make_block b) ≡ block_size b
unfolding make_block
length-make_block b = omega arith

pub length-make_blocks : (bs : List BlockView) → length (make_blocks bs) ≡ total_size bs
unfolding make_blocks
length-make_blocks [] = refl
length-make_blocks (b ∷ bs) = omega (
  arith,
  length-append (make_block b) (make_blocks bs),
  length-make_block b,
  length-make_blocks bs,
)

-- More fuel than the bytes at hand changes nothing.
pub blocks_loop_fuel :
    (f g : ℕ) (v : List ℕ) → length v ≤ f → length v ≤ g → blocks_loop f v ≡ blocks_loop g v
unfolding blocks_loop
blocks_loop_fuel zero zero v p q = refl
blocks_loop_fuel zero (suc g) v p q = ground arith
blocks_loop_fuel (suc f) zero v p q = ground arith
blocks_loop_fuel (suc f) (suc g) v p q = ground (
  arith,
  length-drop 4 v,
  length-drop (u16_at v 2) (drop 4 v),
  blocks_loop_fuel f g (drop (u16_at v 2) (drop 4 v)),
)

-- One round on a block whose content is `c`.
blocks_loop_round :
    (fuel t0 t1 l0 l1 : ℕ) (c v : List ℕ)
    → l0 + 2 ^ 8 * l1 ≡ length c
    → blocks_loop (suc fuel) (t0 ∷ t1 ∷ l0 ∷ l1 ∷ (c ++ v))
      ≡ record { type = t0 + 2 ^ 8 * t1; content = c } ∷ blocks_loop fuel v
unfolding blocks_loop
blocks_loop_round fuel t0 t1 l0 l1 c v e =
    rw (e, take-append c v, drop-append c v, length-append c v) (ground arith)

-- One round on a block that was written.
blocks_of-make_block :
    (b : BlockView) (v : List ℕ) → BlockFits b → blocks_of (make_block b ++ v) ≡ b ∷ blocks_of v
unfolding blocks_of make_block
blocks_of-make_block b v f =
    let fuel = suc (suc (suc (length (b.content ++ v)))) in
    blocks_loop_round fuel _ _ _ _ b.content v (omega arith)
    ∙ rw (u16_at-le16 b.type [] f.type_fits) (
        ap (◌∷◌ b) (
          blocks_loop_fuel fuel (length v) v (omega (arith, length-append b.content v))
            (omega arith)))

-- The blocks of a payload are the blocks it was made of.
pub blocks_of-make_blocks :
    (bs : List BlockView) → All BlockFits bs → blocks_of (make_blocks bs) ≡ bs
unfolding make_blocks
blocks_of-make_blocks [] f = unfold blocks_of in refl
blocks_of-make_blocks (b ∷ bs) (f, fs) =
    rw (blocks_of-make_block b (make_blocks bs) f, blocks_of-make_blocks bs fs)
