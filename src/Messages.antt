-- ===== src/Messages.antt =====
-- The error codes of src/packet_error.cpp, src/application_error.cpp and src/transport_error.cpp,
-- with their values, their categories and their messages, as std::error_code keeps them.
pub mod Distinct
use Prim.Native.String.{String, ◌++◌}
use text.Mathlib.Text.{◌==◌ as str_eq}
use mathlib.Core.Option.{map as map_some}
use libhdcp.Base.{
  ℕ, ◌≡◌, ◌≢◌, refl, List, [], ◌∷◌, Option, some, none, if◌then◌else◌, ◌==◌, PacketErrc,
  sop_not_found, invalid_buffer_size, invalid_header_crc, invalid_payload_crc,
  invalid_protocol_version, invalid_packet_type, invalid_number_of_block, payload_exceed_max_size,
  AppliErrc, ka_timeout, dip_timeout, request_overrun, request_not_found, invalid_cmd_ack_format,
  data_too_big, write_while_disconnected, connection_failed, TransportErrc, write_queue_full,
  read_queue_full, write_while_closed, internal, other, ErrorCode, no_error, packet_code,
  appli_code, transport_code, usb_code, asio_code,
}

-- The enumerator that `static_cast<Errc>(n)` is, among all of them.
abbrev with_value : {E : Type 0} → (E → ℕ) → ℕ → List E → Option E
with_value value n [] = none
with_value value n (e ∷ es) = if value e == n then some e else with_value value n es

-- The values of packet::Errc.
abbrev pub packet_value : PacketErrc → ℕ
packet_value sop_not_found = 1
packet_value invalid_buffer_size = 2
packet_value invalid_header_crc = 3
packet_value invalid_payload_crc = 4
packet_value invalid_protocol_version = 5
packet_value invalid_packet_type = 6
packet_value invalid_number_of_block = 7
packet_value payload_exceed_max_size = 8

abbrev pub packet_errc : ℕ → Option PacketErrc
packet_errc n = with_value packet_value n (
    sop_not_found ∷ invalid_buffer_size ∷ invalid_header_crc ∷ invalid_payload_crc
    ∷ invalid_protocol_version ∷ invalid_packet_type ∷ invalid_number_of_block
    ∷ payload_exceed_max_size ∷ [])

abbrev pub unknown : String
unknown = "unknown error code"

-- The `switch` of `message`.
abbrev pub packet_text : Option PacketErrc → String
packet_text (some sop_not_found) = "start of packet not found in buffer"
packet_text (some invalid_buffer_size) = "invalid buffer size"
packet_text (some invalid_header_crc) = "invalid header crc"
packet_text (some invalid_payload_crc) = "invalid payload crc"
packet_text (some invalid_protocol_version) = "invalid protocol version"
packet_text (some invalid_packet_type) = "invalid packet type"
packet_text (some invalid_number_of_block) = "invalid number of blocks"
packet_text (some payload_exceed_max_size) = "payload exceed max allowed size"
packet_text none = unknown

-- The values of appli::Errc.
abbrev pub appli_value : AppliErrc → ℕ
appli_value ka_timeout = 1
appli_value dip_timeout = 2
appli_value request_overrun = 3
appli_value request_not_found = 4
appli_value invalid_cmd_ack_format = 5
appli_value data_too_big = 6
appli_value write_while_disconnected = 7
appli_value connection_failed = 8

abbrev pub appli_errc : ℕ → Option AppliErrc
appli_errc n = with_value appli_value n (
    ka_timeout ∷ dip_timeout ∷ request_overrun ∷ request_not_found ∷ invalid_cmd_ack_format
    ∷ data_too_big ∷ write_while_disconnected ∷ connection_failed ∷ [])

abbrev pub appli_text : Option AppliErrc → String
appli_text (some ka_timeout) = "keepalive timeout"
appli_text (some dip_timeout) = "device identification packet timeout"
appli_text (some request_overrun) = "request overrun"
appli_text (some request_not_found) = "request not found"
appli_text (some invalid_cmd_ack_format) = "invalid command ack format"
appli_text (some data_too_big) = "data too big"
appli_text (some write_while_disconnected) = "writing is not permitted while disconnected"
appli_text (some connection_failed) = "connection failed"
appli_text none = unknown

-- The values of transport::Errc.
abbrev pub transport_value : TransportErrc → ℕ
transport_value write_queue_full = 1
transport_value read_queue_full = 2
transport_value write_while_closed = 3
transport_value internal = 4
transport_value other = 5

abbrev pub transport_errc : ℕ → Option TransportErrc
transport_errc n =
    with_value transport_value n
      (write_queue_full ∷ read_queue_full ∷ write_while_closed ∷ internal ∷ other ∷ [])

abbrev pub transport_text : Option TransportErrc → String
transport_text (some write_queue_full) = "write queue full"
transport_text (some read_queue_full) = "read queue full"
transport_text (some write_while_closed) = "write is not permitted while transport closed"
transport_text (some internal) = "internal"
transport_text (some other) = "other"
transport_text none = unknown

-- The categories: those of the library, that of boost's errors, and that of a code without error.
pub data Category : Type 0 where
  packet_category appli_category transport_category usb_category : Category
  asio_category system_category : Category

-- std::error_code
pub record StdCode : Type 0 where
  pub value : ℕ
  pub category : Category

-- `make_error_code`, of each enumeration, and the code of a libusb_error.
abbrev pub packet_error_code : PacketErrc → StdCode
packet_error_code e = record { value = packet_value e; category = packet_category }

abbrev pub appli_error_code : AppliErrc → StdCode
appli_error_code e = record { value = appli_value e; category = appli_category }

abbrev pub transport_error_code : TransportErrc → StdCode
transport_error_code e = record { value = transport_value e; category = transport_category }

abbrev pub libusb_error_code : ℕ → StdCode
libusb_error_code code = record { value = code; category = usb_category }

-- The std::error_code of an error.
unfoldable pub error_code : ErrorCode → StdCode
error_code no_error = record { value = 0; category = system_category }
error_code (packet_code e) = packet_error_code e
error_code (appli_code e) = appli_error_code e
error_code (transport_code e) = transport_error_code e
error_code (usb_code n) = libusb_error_code n
error_code (asio_code n) = record { value = n; category = asio_category }

-- `libusb_error_name`, and the messages of the categories of boost and of the standard library.
module _ (libusb_error_name asio_message system_message : ℕ → String) where
  -- `message` of the category.
  unfoldable pub message : StdCode → String
  message c = elim c.category [
    | packet_category ↦ packet_text (packet_errc c.value)
    | appli_category ↦ appli_text (appli_errc c.value)
    | transport_category ↦ transport_text (transport_errc c.value)
    | usb_category ↦ libusb_error_name c.value
    | asio_category ↦ asio_message c.value
    | system_category ↦ system_message c.value
  ]

  -- `what()` of an hdcp_error, with the text that was given and without one.
  unfoldable pub what : ErrorCode → Option String → String
  unfolding error_code message
  what c none = message (error_code c)
  what c (some what_arg) = message (error_code c) ++ (":" ++ what_arg)
