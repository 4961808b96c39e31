-- ===== src/Packet/Parse.antt =====
-- The checks of src/packet.cpp, and the packet as an object.
use libhdcp.Base.{
  ℕ, suc, ◌+◌, ◌-◌, List, [], ◌∷◌, Option, none, some, Bool, true, false, ◌&&◌, leb, ◌==◌,
  if◌then◌else◌, length, take, drop, Result, ok, err, guard, ◌>>=◌, ◌>>◌, packet_error, PacketErrc,
  sop_not_found, invalid_buffer_size, invalid_header_crc, invalid_payload_crc, out_of_bounds,
  invalid_protocol_version, invalid_packet_type, invalid_number_of_block, payload_exceed_max_size,
}
use libhdcp.Packet.Crc.{compute_crc}
use libhdcp.Packet.Format.{
  PacketType, known_type, Header, header_at, header_size, max_size, BlockView, blocks_of, le16,
}
use libhdcp.Packet.Format
use mathlib.Core.Option

-- The array `data_`, up to the last byte that was given a value. The rest of its `max_size` bytes
-- is indeterminate.
pub record Packet : Type 0 where
  pub data_ : List ℕ

-- `!= none` as a test.
abbrev pub is_known : Option PacketType → Bool
is_known none = false
is_known (some t) = true

-- `parse_header(std::string_view)`
unfoldable pub parse_header : List ℕ → Result Header
unfolding known_type
parse_header v = do
  guard (length v == header_size) invalid_buffer_size
  let h = header_at v
  guard (compute_crc (take (length v - 2) v) == h.h_crc) invalid_header_crc
  guard (h.sop == Format.sop) sop_not_found
  guard (h.ver == Format.ver) invalid_protocol_version
  guard (is_known (known_type h.type)) invalid_packet_type
  guard (leb h.len (max_size - header_size)) payload_exceed_max_size
  ok h

-- `parse_payload(std::string_view, const Header *)`
unfoldable pub parse_payload : List ℕ → Header → Result (Unit {0})
parse_payload v h = do
  guard (h.len == length v) invalid_buffer_size
  guard (h.p_crc == compute_crc v) invalid_payload_crc
  guard (h.n_block == length (blocks_of v)) invalid_number_of_block
  ok tt

abbrev pub starts_with : List ℕ → List ℕ → Bool
starts_with v [] = true
starts_with [] (c ∷ s) = false
starts_with (d ∷ v) (c ∷ s) = d == c && starts_with v s

-- `v.find(s, 0, n)`: the first position at which `s` stands, for an `s` that is not empty.
unfoldable pub find : List ℕ → List ℕ → Option ℕ
find [] s = none
find (d ∷ v) s = if starts_with (d ∷ v) s then some 0 else Option.map suc (find v s)

-- `throw` where `find` answers npos.
abbrev pub or_throw {ℓ} : {A : Type ℓ} → Option A → PacketErrc → Result A
or_throw none e = err (packet_error e)
or_throw (some a) e = ok a

-- `std::string_view(v.data() + from, n)`, which is read: its bytes have to be those of `v`.
abbrev pub view_at : ℕ → ℕ → List ℕ → Result (List ℕ)
view_at from n v =
    if leb (from + n) (length v) then ok (take n (drop from v)) else err out_of_bounds

-- `std::copy(v.begin(), v.begin() + n, data_.begin())`: `v` has to have so many bytes, and `data_`
-- the place for them.
abbrev pub copy_front : ℕ → List ℕ → Result Packet
copy_front n v =
    if leb n (length v) && leb n max_size
    then ok (record { data_ = take n v })
    else err out_of_bounds

-- `Packet::Packet(std::string_view)`
unfoldable pub from_view : List ℕ → Result Packet
unfolding find
from_view v = do
  pos ← or_throw (find v (le16 Format.sop)) sop_not_found
  guard (leb (pos + header_size) (length v)) invalid_buffer_size
  front ← view_at pos header_size v
  header ← parse_header front
  guard (leb (pos + header_size + header.len) (length v)) invalid_buffer_size
  content ← view_at (pos + header_size) header.len v
  parse_payload content header
  copy_front (header_size + header.len) v

abbrev pub header : Packet → Header
header p = header_at p.data_

abbrev pub id : Packet → ℕ
id p = (header p).id

abbrev pub version : Packet → ℕ
version p = (header p).ver

abbrev pub type : Packet → Option PacketType
type p = known_type (header p).type

abbrev pub nb_block : Packet → ℕ
nb_block p = (header p).n_block

abbrev pub header_view : Packet → List ℕ
header_view p = take header_size p.data_

abbrev pub payload : Packet → List ℕ
payload p = take (header p).len (drop header_size p.data_)

abbrev pub size : Packet → ℕ
size p = length (payload p) + header_size

abbrev pub blocks : Packet → List BlockView
blocks p = blocks_of (payload p)

-- `parse_header() const` and `parse_payload() const`
unfoldable pub check_header : Packet → Result Header
check_header p = parse_header (header_view p)

unfoldable pub check_payload : Packet → Result (Unit {0})
check_payload p = parse_payload (payload p) (header p)
