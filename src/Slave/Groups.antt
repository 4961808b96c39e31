-- ===== src/Slave/Groups.antt =====
-- How blocks are divided over packets: a description of what `send_data` sends.
use libhdcp.Base.{
  ◌+◌, ◌^◌, ◌≤◌, ◌<◌, ◌≡◌, refl, List, [], ◌∷◌, ◌++◌, is_empty, arith, length, ltb, if◌then◌else◌,
  All, All-append, append_assoc, Bool-cases, inl, inr,
}
use mathlib.Core.List.{flatten}
use libhdcp.Packet.Format.{BlockView, block_size, max_pl_size}
use libhdcp.Packet.Blocks.{BlockFits, total_size}
use libhdcp.Packet.RoundTrip.{Fitting}

-- A block that a packet can hold.
pub record Sendable (b : BlockView) : Type 0 where
  pub fits : BlockFits b
  pub small : block_size b ≤ max_pl_size

-- Blocks go to the group `g` while it stays within a payload; then a new group is begun.
unfoldable pub groups_from : List BlockView → List BlockView → List (List BlockView)
groups_from g [] = if is_empty g then [] else g ∷ []
groups_from g (b ∷ bs) =
    let joined = groups_from (g ++ (b ∷ [])) bs in
    let alone = g ∷ groups_from (b ∷ []) bs in
    if ltb max_pl_size (total_size g + block_size b) then alone else joined

abbrev pub groups : List BlockView → List (List BlockView)
groups bs = groups_from [] bs

pub total_size-append : (g h : List BlockView) → total_size (g ++ h) ≡ total_size g + total_size h
total_size-append [] h = omega arith
total_size-append (b ∷ g) h = omega (arith, total_size-append g h)

-- No block is lost, doubled or moved.
pub flatten-groups_from : (g bs : List BlockView) → flatten (groups_from g bs) ≡ g ++ bs
unfolding groups_from flatten
flatten-groups_from [] [] = refl
flatten-groups_from (c ∷ g) [] = refl
flatten-groups_from g (b ∷ bs) = ground (
  arith,
  flatten-groups_from (b ∷ []) bs,
  flatten-groups_from (g ++ (b ∷ [])) bs,
  append_assoc g (b ∷ []) bs,
)

-- Each group fits a packet, if each block does and no group has more than 255.
pub groups_from-Fitting :
    (g bs : List BlockView)
    → All Sendable bs
    → All BlockFits g
    → total_size g ≤ max_pl_size
    → All (λ h. length h < 2 ^ 8) (groups_from g bs)
    → All Fitting (groups_from g bs)
unfolding groups_from
groups_from-Fitting [] [] s f t few = tt
groups_from-Fitting (c ∷ g) [] s f t few = (record { each = f; few = few.0; small = t }, tt)
groups_from-Fitting g (b ∷ bs) (s, ss) f t few =
    elim (Bool-cases (ltb max_pl_size (total_size g + block_size b))) [
      | inl over ↦
          let (n, ns) = rw over at few in
          rw over (
            record { each = f; few = n; small = t },
            groups_from-Fitting (b ∷ []) bs ss (s.fits, tt) (omega (arith, s.small)) ns,
          )
      | inr within ↦ rw within (
          groups_from-Fitting (g ++ (b ∷ [])) bs ss (All-append BlockFits g (b ∷ []) f (s.fits, tt))
            (ground (arith, total_size-append g (b ∷ []))) (rw within at few))
    ]
