-- ===== src/Packet/Constructors.antt =====
-- Each constructor of src/packet.cpp against what its packet carries.
use libhdcp.Base.{
  ℕ, ◌+◌, ◌^◌, ◌≤◌, ◌<◌, ◌≡◌, refl, ap, map, ◌++◌, sym, ◌∙◌, List, [], ◌∷◌, arith, length, leb, ltb,
  if◌then◌else◌, All, append-nil, ok, err, packet_error, invalid_number_of_block,
  payload_exceed_max_size,
}
use libhdcp.Packet.Format.{
  PacketType, cmd, cmd_ack, ka, ka_ack, hip, dip, data_packet, Block, BlockView, from_block,
  make_block, max_pl_size, IsU16, le16, u16_at, bheader_size,
}
use libhdcp.Packet.Parse.{Packet}
use libhdcp.Packet.Make.{
  make_blocks, make_packet, make_command, make_cmd_ack, make_data, make_data_of, make_blocks_of,
  make_keepalive, make_keepalive_ack, make_hip, make_dip, Identification, id_blocks,
}
use libhdcp.Packet.Layout.{u16_at-le16}
use libhdcp.Packet.Written.{make_packet_lem}
use libhdcp.Packet.Blocks.{BlockFits, total_size, length-make_blocks, blocks_of-make_blocks}
use libhdcp.Packet.RoundTrip.{packet_of, Carries, Fitting, packet_of-Carries}

-- Every branch, for blocks whose sizes can be written down.
make_packet-make_blocks :
    (n : ℕ) (t : PacketType) (bs : List BlockView)
    → IsU16 n
    → All BlockFits bs
    → total_size bs < 2 ^ 16
    → make_packet n t (length bs) (make_blocks bs) ≡ (
        if leb (total_size bs) max_pl_size
        then (if ltb (length bs) (2 ^ 8)
            then ok (packet_of n t bs)
            else err (packet_error invalid_number_of_block))
        else err (packet_error payload_exceed_max_size))
unfolding packet_of
make_packet-make_blocks n t bs h f k =
    let len = length-make_blocks bs in
    rw
      (
        make_packet_lem n t (length bs) (make_blocks bs) h (omega (arith, len)),
        len,
        blocks_of-make_blocks bs f,
      )
      (ground arith)

make_packet-Fitting :
    (n : ℕ) (t : PacketType) (bs : List BlockView)
    → IsU16 n
    → Fitting bs
    → make_packet n t (length bs) (make_blocks bs) ≡ ok (packet_of n t bs)
make_packet-Fitting n t bs h f =
    make_packet-make_blocks n t bs h f.each (omega (arith, f.small))
    ∙ ground (arith, f.small, f.few)

-- For blocks whose types and sizes are 16-bit numbers, and which come to fewer than 65536 bytes with
-- their headers, `make_data` returns the packet that carries the blocks; it throws
-- `payload_exceed_max_size` if they are too long for a packet, and `invalid_number_of_block` if
-- they are short enough but more than 255.
pub make_data_lem :
    (n : ℕ) (bs : List BlockView)
    → IsU16 n
    → All BlockFits bs
    → total_size bs < 2 ^ 16
    → make_data n bs ≡ (
        if leb (total_size bs) max_pl_size
        then (if ltb (length bs) (2 ^ 8)
            then ok (packet_of n data_packet bs)
            else err (packet_error invalid_number_of_block))
        else err (packet_error payload_exceed_max_size))
unfolding make_data
make_data_lem n bs h f k = make_packet-make_blocks n data_packet bs h f k

make_blocks_of-make_blocks : (bs : List Block) → make_blocks_of bs ≡ make_blocks (map from_block bs)
unfolding make_blocks_of make_blocks
make_blocks_of-make_blocks [] = refl
make_blocks_of-make_blocks (b ∷ bs) =
    ap (λ v. make_block (from_block b) ++ v) (make_blocks_of-make_blocks bs)

length-from_block : (bs : List Block) → length (map from_block bs) ≡ length bs
length-from_block [] = refl
length-from_block (b ∷ bs) = omega (arith, length-from_block bs)

-- Blocks that own their bytes make the packet that views of them make.
pub make_data_of-make_data :
    (n : ℕ) (bs : List Block) → make_data_of n bs ≡ make_data n (map from_block bs)
unfolding make_data_of make_data
make_data_of-make_data n bs = rw (make_blocks_of-make_blocks bs, length-from_block bs) refl

-- Blocks that fit one packet are read back from the packet that `make_data` makes of them.
pub make_data-Carries :
    (n : ℕ) (bs : List BlockView)
    → IsU16 n
    → Fitting bs
    → (p : Packet) × (make_data n bs ≡ ok p) × Carries p n data_packet bs
unfolding make_data
make_data-Carries n bs h f = (
  packet_of n data_packet bs,
  make_packet-Fitting n data_packet bs h f,
  packet_of-Carries n data_packet bs h f,
)

one_block : (b : BlockView) → make_block b ≡ make_blocks (b ∷ [])
unfolding make_blocks
one_block b = sym (append-nil (make_block b))

-- A command is read back with its number and its one block, and `make_command` refuses no
-- command whose data fits a packet.
pub make_command-Carries :
    (n type : ℕ) (content : List ℕ)
    → IsU16 n
    → IsU16 type
    → length content + bheader_size ≤ max_pl_size
    → (p : Packet) × (make_command n type content ≡ ok p)
      × Carries p n cmd (record { type = type; content = content } ∷ [])
unfolding make_command
make_command-Carries n type content h k small =
    let b : BlockView = record { type = type; content = content } in
    let f : Fitting (b ∷ []) = omega arith in
    (
      packet_of n cmd (b ∷ []),
      rw (one_block b) (make_packet-Fitting n cmd (b ∷ []) h f),
      packet_of-Carries n cmd (b ∷ []) h f,
    )

-- A command acknowledgement is read back with its number and one block, which has the type given
-- and holds the number of the command.
pub make_cmd_ack-Carries :
    (n type cmd_id : ℕ)
    → IsU16 n
    → IsU16 type
    → IsU16 cmd_id
    → (p : Packet) × (make_cmd_ack n type cmd_id ≡ ok p)
      × Carries p n cmd_ack (record { type = type; content = le16 cmd_id } ∷ [])
      × (u16_at (le16 cmd_id) 0 ≡ cmd_id)
unfolding make_cmd_ack
make_cmd_ack-Carries n type cmd_id h k c =
    let b : BlockView = record { type = type; content = le16 cmd_id } in
    let f : Fitting (b ∷ []) = omega arith in
    (
      packet_of n cmd_ack (b ∷ []),
      rw (one_block b) (make_packet-Fitting n cmd_ack (b ∷ []) h f),
      packet_of-Carries n cmd_ack (b ∷ []) h f,
      u16_at-le16 cmd_id [] c,
    )

-- Both keep-alive packets can always be made, and carry no block.
pub make_keepalive-Carries :
    (n : ℕ)
    → IsU16 n
    → ((p : Packet) × (make_keepalive n ≡ ok p) × Carries p n ka [])
      × ((q : Packet) × (make_keepalive_ack n ≡ ok q) × Carries q n ka_ack [])
unfolding make_keepalive make_keepalive_ack
make_keepalive-Carries n h =
    let f : Fitting [] = omega arith in
    let sent = λ (t : PacketType). make_packet-Fitting n t [] h f in
    let read = λ (t : PacketType). packet_of-Carries n t [] h f in
    (
      (packet_of n ka [], (unfold make_blocks in sent ka), read ka),
      (packet_of n ka_ack [], (unfold make_blocks in sent ka_ack), read ka_ack),
    )

-- Both identification packets carry the four fields of the identification, in order, if these
-- fit a packet together.
pub make_id-Carries :
    (n : ℕ) (i : Identification)
    → IsU16 n
    → total_size (id_blocks i) ≤ max_pl_size
    → ((p : Packet) × (make_hip n i ≡ ok p) × Carries p n hip (id_blocks i))
      × ((q : Packet) × (make_dip n i ≡ ok q) × Carries q n dip (id_blocks i))
unfolding make_hip make_dip
make_id-Carries n i h small =
    let f : Fitting (id_blocks i) = omega arith in
    let sent = λ (t : PacketType). make_packet-Fitting n t (id_blocks i) h f in
    let read = λ (t : PacketType). packet_of-Carries n t (id_blocks i) h f in
    (
      (packet_of n hip (id_blocks i), sent hip, read hip),
      (packet_of n dip (id_blocks i), sent dip, read dip),
    )
