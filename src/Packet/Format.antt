-- ===== src/Packet/Format.antt =====
-- The layout of a packet: the types and constants of src/packet.h, and the readers and writers of
-- src/packet.cpp. Bytes are numbers below 256; a uint16_t is stored low byte first.
use libhdcp.Base.{
  ℕ, zero, suc, ◌+◌, ◌-◌, ◌*◌, ◌/◌, ◌%◌, ◌^◌, ◌<◌, List, [], ◌∷◌, ◌++◌, Option, none, some, leb,
  ◌==◌, if◌then◌else◌, length, take, drop, get_or,
}

abbrev pub sop : ℕ
sop = 0xCAFE

abbrev pub ver : ℕ
ver = 0x01

-- sizeof(Header) and sizeof(BHeader): both structures are packed.
abbrev pub header_size : ℕ
header_size = 13

abbrev pub bheader_size : ℕ
bheader_size = 4

abbrev pub max_size : ℕ
max_size = 2048

abbrev pub max_pl_size : ℕ
max_pl_size = max_size - header_size

-- Packet::Type
pub data PacketType : Type 0 where
  hip dip ka ka_ack cmd cmd_ack data_packet : PacketType

abbrev pub type_code : PacketType → ℕ
type_code hip = 0x01
type_code dip = 0x41
type_code ka = 0x02
type_code ka_ack = 0x42
type_code cmd = 0x03
type_code cmd_ack = 0x43
type_code data_packet = 0x44

-- The cases of the `switch` on the type of a header.
unfoldable pub known_type : ℕ → Option PacketType
known_type t =
    if t == 0x01
    then some hip
    else if t == 0x41
    then some dip
    else if t == 0x02
    then some ka
    else if t == 0x42
    then some ka_ack
    else if t == 0x03
    then some cmd
    else if t == 0x43
    then some cmd_ack
    else if t == 0x44
    then some data_packet
    else none

abbrev pub IsByte : ℕ → Type 0
IsByte b = b < 2 ^ 8

abbrev pub IsU16 : ℕ → Type 0
IsU16 n = n < 2 ^ 16

-- The bytes of a uint16_t, and the uint16_t at an offset.
abbrev pub le16 : ℕ → List ℕ
le16 n = (n % 2 ^ 8) ∷ (n / 2 ^ 8 % 2 ^ 8) ∷ []

abbrev pub u8_at : List ℕ → ℕ → ℕ
u8_at v i = get_or v i 0

abbrev pub u16_at : List ℕ → ℕ → ℕ
u16_at v i = get_or v i 0 + 2 ^ 8 * get_or v (suc i) 0

-- The packed structure Header.
pub record Header : Type 0 where
  pub sop : ℕ
  pub ver : ℕ
  pub len : ℕ
  pub id : ℕ
  pub type : ℕ
  pub n_block : ℕ
  pub p_crc : ℕ
  pub h_crc : ℕ

-- The bytes of the structure up to `h_crc`, and all of them.
abbrev pub header_prefix : Header → List ℕ
header_prefix h =
    le16 h.sop ++ (h.ver ∷ (le16 h.len ++ (le16 h.id ++ (h.type ∷ h.n_block ∷ le16 h.p_crc))))

abbrev pub header_bytes : Header → List ℕ
header_bytes h = header_prefix h ++ le16 h.h_crc

-- `reinterpret_cast<const Header*>(v.data())`
abbrev pub header_at : List ℕ → Header
header_at v = record {
  sop = u16_at v 0;
  ver = u8_at v 2;
  len = u16_at v 3;
  id = u16_at v 5;
  type = u8_at v 7;
  n_block = u8_at v 8;
  p_crc = u16_at v 9;
  h_crc = u16_at v 11;
}

-- Block, which owns its bytes: `content` is the member `data`.
pub record Block : Type 0 where
  pub type : ℕ
  pub content : List ℕ

pub record BlockView : Type 0 where
  pub type : ℕ
  pub content : List ℕ

-- `BlockView(const Block& from)`
abbrev pub from_block : Block → BlockView
from_block from = record { type = from.type; content = from.content }

abbrev pub block_size : BlockView → ℕ
block_size b = length b.content + bheader_size

-- `make_block(BlockView)`: `len` is the uint16_t that the size is converted to.
unfoldable pub make_block : BlockView → List ℕ
make_block b = le16 b.type ++ (le16 (length b.content % 2 ^ 16) ++ b.content)

-- The loop of `blocks(std::string_view)`. A round takes at least `bheader_size` bytes, so that
-- the length of the payload is enough fuel.
unfoldable pub blocks_loop : ℕ → List ℕ → List BlockView
blocks_loop zero v = []
blocks_loop (suc fuel) v =
    let len = u16_at v 2 in
    let rest = drop bheader_size v in
    let b : BlockView = record { type = u16_at v 0; content = take len rest } in
    let more = b ∷ blocks_loop fuel (drop len rest) in
    if leb bheader_size (length v) then (if leb len (length rest) then more else []) else []

unfoldable pub blocks_of : List ℕ → List BlockView
unfolding blocks_loop
blocks_of payload = blocks_loop (length payload) payload
