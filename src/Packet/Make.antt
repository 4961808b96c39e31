-- ===== src/Packet/Make.antt =====
-- The constructors of src/packet.cpp that build a packet from its parts.
use libhdcp.Base.{ℕ, ◌%◌, ◌^◌, List, [], ◌∷◌, ◌++◌, length, Result}
use libhdcp.Packet.Crc.{compute_crc}
use libhdcp.Packet.Format.{
  PacketType, hip, dip, ka, ka_ack, cmd, cmd_ack, data_packet, type_code, Header, header_prefix,
  header_bytes, Block, BlockView, from_block, make_block, le16,
}
use libhdcp.Packet.Format
use libhdcp.Packet.Parse.{Packet, from_view}

-- `struct Identification` of src/application.h
pub record Identification : Type 0 where
  pub name : List ℕ
  pub serial_number : List ℕ
  pub hw_version : List ℕ
  pub sw_version : List ℕ

-- Packet::ReservedBlockType
abbrev pub name_type : ℕ
name_type = 0x0001

abbrev pub serial_number_type : ℕ
serial_number_type = 0x0002

abbrev pub hw_version_type : ℕ
hw_version_type = 0x0003

abbrev pub sw_version_type : ℕ
sw_version_type = 0x0004

-- The fields that `make_header` fills in before the checksum of the header.
abbrev pub unsigned_header : ℕ → PacketType → ℕ → List ℕ → Header
unsigned_header id type n_block payload = record {
  sop = Format.sop;
  ver = Format.ver;
  len = length payload % 2 ^ 16;
  id = id;
  type = type_code type;
  n_block = n_block;
  p_crc = compute_crc payload;
  h_crc = 0;
}

-- `make_header`: the parameter `n_block` is a uint8_t.
unfoldable pub make_header : ℕ → PacketType → ℕ → List ℕ → List ℕ
make_header id type n_block payload =
    let h = unsigned_header id type (n_block % 2 ^ 8) payload in
    header_bytes (record h { h_crc = compute_crc (header_prefix h) })

-- The two lines that end every constructor, `Packet(header + payload)`.
unfoldable pub make_packet : ℕ → PacketType → ℕ → List ℕ → Result Packet
unfolding make_header from_view
make_packet id type n_block payload = from_view (make_header id type n_block payload ++ payload)

unfoldable pub make_blocks : List BlockView → List ℕ
make_blocks [] = []
make_blocks (b ∷ bs) = make_block b ++ make_blocks bs

unfoldable pub make_command : ℕ → ℕ → List ℕ → Result Packet
make_command id type content =
    make_packet id cmd 1 (make_block (record { type = type; content = content }))

unfoldable pub make_cmd_ack : ℕ → ℕ → ℕ → Result Packet
make_cmd_ack id type cmd_id =
    make_packet id cmd_ack 1 (make_block (record { type = type; content = le16 cmd_id }))

unfoldable pub make_data : ℕ → List BlockView → Result Packet
make_data id blocks = make_packet id data_packet (length blocks) (make_blocks blocks)

-- The loop of `make_data(Id, std::vector<Block>&)`.
unfoldable pub make_blocks_of : List Block → List ℕ
make_blocks_of [] = []
make_blocks_of (b ∷ bs) = make_block (from_block b) ++ make_blocks_of bs

unfoldable pub make_data_of : ℕ → List Block → Result Packet
make_data_of id blocks = make_packet id data_packet (length blocks) (make_blocks_of blocks)

unfoldable pub make_keepalive : ℕ → Result Packet
make_keepalive id = make_packet id ka 0 []

unfoldable pub make_keepalive_ack : ℕ → Result Packet
make_keepalive_ack id = make_packet id ka_ack 0 []

-- The four blocks of an identification packet, in order.
abbrev pub id_blocks : Identification → List BlockView
id_blocks i =
    record { type = name_type; content = i.name }
    ∷ record { type = serial_number_type; content = i.serial_number }
    ∷ record { type = hw_version_type; content = i.hw_version }
    ∷ record { type = sw_version_type; content = i.sw_version }
    ∷ []

unfoldable pub make_hip : ℕ → Identification → Result Packet
unfolding make_blocks
make_hip id host_id = make_packet id hip 4 (make_blocks (id_blocks host_id))

unfoldable pub make_dip : ℕ → Identification → Result Packet
unfolding make_blocks
make_dip id dev_id = make_packet id dip 4 (make_blocks (id_blocks dev_id))
