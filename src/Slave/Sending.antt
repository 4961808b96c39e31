-- ===== src/Slave/Sending.antt =====
-- What slave::RequestManager sends over a transport that takes every packet.
use libhdcp.Base.{
  All-map, ℕ, ◌+◌, ◌%◌, ◌^◌, ◌≤◌, ◌<◌, ◌≡◌, refl, sym, ◌∙◌, List, [], ◌∷◌, ◌++◌, true, false, arith,
  length, ltb, ok, err, All, append_assoc, append-nil, Bool-cases, inl, inr, length-append,
  packet_error, invalid_number_of_block,
}
use libhdcp.Base.State.{>>-ok}
use mathlib.Core.List.{flatten}
use libhdcp.Interfaces.{Thread, TimeoutQueue, Transport, Takes}
use libhdcp.Packet.Format.{BlockView, block_size, max_pl_size, data_packet}
use libhdcp.Packet.Parse.{Packet}
use libhdcp.Packet.Make.{make_data}
use libhdcp.Packet.Blocks.{BlockFits, total_size}
use libhdcp.Packet.RoundTrip.{Fitting, packet_of}
use libhdcp.Packet.Constructors.{make_data_lem}
use libhdcp.Slave.Groups.{
  Sendable, groups, groups_from, groups_from-Fitting, flatten-groups_from, total_size-append,
}
use libhdcp.Slave.Manager.{Timer, Manager, next_id, write_next, send_loop, send_data}

-- The packets that carry the groups, numbered from the one after `n`.
abbrev pub data_packets : ℕ → List (List BlockView) → List Packet
data_packets n [] = []
data_packets n (g ∷ gs) =
    let n' = (n + 1) % 2 ^ 16 in packet_of n' data_packet g ∷ data_packets n' gs

module _ (H : Thread) (Q : TimeoutQueue Timer) (X : Transport) (R : Takes X) where
  -- One packet is written.
  abbrev wrote : List BlockView → Manager H Q X → Manager H Q X
  wrote g m =
      let n = (m.packet_id + 1) % 2 ^ 16 in
      record m { packet_id = n; transport = (X.write (packet_of n data_packet g) m.transport).1 }

  wrote_all : List (List BlockView) → Manager H Q X → Manager H Q X
  wrote_all [] m = m
  wrote_all (g ∷ gs) m = wrote_all gs (wrote g m)

  write_group :
      (g : List BlockView) (m : Manager H Q X)
      → Fitting g
      → X.is_open m.transport ≡ true
      → write_next H Q X (λ id. make_data id g) m ≡ (ok tt, wrote g m)
  unfolding write_next
  write_group g m f o =
      let made : make_data ((m.packet_id + 1) % 2 ^ 16) g
          ≡ ok (packet_of ((m.packet_id + 1) % 2 ^ 16) data_packet g) =
        make_data_lem ((m.packet_id + 1) % 2 ^ 16) g (omega arith) f.each (omega (arith, f.small))
        ∙ ground (arith, f.small, f.few) in
      rw (made, R.write_ok (packet_of ((m.packet_id + 1) % 2 ^ 16) data_packet g) m.transport o)

  is_open-wrote :
      (g : List BlockView) (m : Manager H Q X)
      → X.is_open m.transport ≡ true
      → X.is_open (wrote g m).transport ≡ true
  is_open-wrote g m o = R.is_open-write _ m.transport ∙ o

  send_loop_lem :
      (g bs : List BlockView) (size : ℕ) (m : Manager H Q X)
      → size ≡ total_size g
      → All Sendable bs
      → All Fitting (groups_from g bs)
      → X.is_open m.transport ≡ true
      → send_loop H Q X g size bs m ≡ (ok tt, wrote_all (groups_from g bs) m)
  unfolding send_loop groups_from wrote_all
  send_loop_lem [] [] size m e s f o = refl
  send_loop_lem (c ∷ g) [] size m e s f o = write_group (c ∷ g) m f.0 o
  send_loop_lem g (b ∷ bs) size m e (s, ss) f o =
      let one : ltb max_pl_size (block_size b) ≡ false = ground (arith, s.small) in
      elim (Bool-cases (ltb max_pl_size (total_size g + block_size b))) [
        | inl over ↦
            let (now, later) = rw over at f in
            rw (one, e, over)
              (>>-ok (write_next H Q X (λ id. make_data id g))
                  (send_loop H Q X (b ∷ []) (block_size b) bs) m (wrote g m) (write_group g m now o)
                ∙ send_loop_lem (b ∷ []) bs (block_size b) (wrote g m) (omega arith) ss later
                    (is_open-wrote g m o))
        | inr within ↦
            rw (one, e, within)
              (send_loop_lem (g ++ (b ∷ [])) bs (total_size g + block_size b) m
                (omega (arith, total_size-append g (b ∷ []))) ss (rw within at f) o)
      ]

  wrote_all_lem :
      (gs : List (List BlockView)) (m : Manager H Q X)
      → X.is_open m.transport ≡ true
      → m.packet_id < 2 ^ 16
      → (R.sent (wrote_all gs m).transport ≡ R.sent m.transport ++ data_packets m.packet_id gs)
        × ((wrote_all gs m).packet_id ≡ (m.packet_id + length gs) % 2 ^ 16)
  unfolding wrote_all
  wrote_all_lem [] m o h = (sym (append-nil (R.sent m.transport)), omega arith)
  wrote_all_lem (g ∷ gs) m o h =
      let (log, id) = wrote_all_lem gs (wrote g m) (is_open-wrote g m o) (omega arith) in
      (
        log ∙ rw (R.sent-write _ m.transport o) (append_assoc (R.sent m.transport) (_ ∷ []) _),
        id ∙ omega arith,
      )

  -- Over an open transport that takes every packet, and if each block fits a packet and no group has
  -- more than 255 blocks: the blocks are all sent, in order. They are divided into groups whose size
  -- is that of a payload at most, each group goes into one data packet, and the packets are numbered
  -- on from the last one.
  pub send_data_lem :
      (bs : List BlockView) (m : Manager H Q X)
      → All Sendable bs
      → All (λ g. length g < 2 ^ 8) (groups bs)
      → X.is_open m.transport ≡ true
      → m.packet_id < 2 ^ 16
      → ((send_data H Q X bs m).0 ≡ ok tt)
        × (R.sent (send_data H Q X bs m).1.transport
            ≡ R.sent m.transport ++ data_packets m.packet_id (groups bs))
        × ((send_data H Q X bs m).1.packet_id ≡ (m.packet_id + length (groups bs)) % 2 ^ 16)
        × (flatten (groups bs) ≡ bs)
        × All (λ g. total_size g ≤ max_pl_size) (groups bs)
  unfolding send_data
  send_data_lem bs m s few o h =
      let fit = groups_from-Fitting [] bs s tt (omega arith) few in
      let (log, id) = wrote_all_lem (groups bs) m o h in
      rw (send_loop_lem [] bs 0 m refl s fit o)
        (refl, log, id, flatten-groups_from [] bs, All-map (λ g f. f.small) (groups bs) fit)

  -- While all blocks fit one payload, they are sent together.
  send_loop_together :
      (g bs : List BlockView) (size : ℕ) (m : Manager H Q X)
      → size ≡ total_size g
      → total_size g + total_size bs ≤ max_pl_size
      → 0 < length g + length bs
      → send_loop H Q X g size bs m ≡ write_next H Q X (λ id. make_data id (g ++ bs)) m
  unfolding send_loop
  send_loop_together [] [] size m e t some_block = absurd (omega arith)
  send_loop_together (c ∷ g) [] size m e t some_block = rw append-nil
  send_loop_together g (b ∷ bs) size m e t some_block =
      let one : ltb max_pl_size (block_size b) ≡ false = ground arith in
      let within : ltb max_pl_size (size + block_size b) ≡ false = ground arith in
      rw (one, within, ← append_assoc g (b ∷ []) bs)
        (send_loop_together (g ++ (b ∷ [])) bs (size + block_size b) m
          (omega (arith, total_size-append g (b ∷ [])))
          (omega (arith, total_size-append g (b ∷ []))) (omega (arith, length-append g (b ∷ []))))

  -- More than 255 blocks that one payload can hold are not sent: `make_data` throws, since their
  -- number is cut to a uint8_t, and nothing is written.
  pub send_data_too_many :
      (bs : List BlockView) (m : Manager H Q X)
      → All BlockFits bs
      → total_size bs ≤ max_pl_size
      → 2 ^ 8 ≤ length bs
      → send_data H Q X bs m ≡ (err (packet_error invalid_number_of_block), next_id H Q X m)
  unfolding send_data write_next
  send_data_too_many bs m f t many =
      let id = (m.packet_id + 1) % 2 ^ 16 in
      let thrown : make_data id bs ≡ err (packet_error invalid_number_of_block) =
        make_data_lem id bs (omega arith) f (omega arith) ∙ ground arith in
      send_loop_together [] bs 0 m refl (omega arith) (omega arith) ∙ rw thrown
