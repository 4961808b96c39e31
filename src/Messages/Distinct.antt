-- ===== src/Messages/Distinct.antt =====
-- No two error codes of src/packet_error.cpp, src/application_error.cpp and src/transport_error.cpp
-- are the same or have the same message.
use Prim.Native.String.{String}
use text.Mathlib.Text.{◌==◌ as str_eq}
use mathlib.Core.Option.{map as map_some}
use libhdcp.Base.{
  ℕ, ◌≡◌, ◌≢◌, refl, List, [], ◌∷◌, Option, some, none, if◌then◌else◌, sop_not_found,
  invalid_buffer_size, invalid_header_crc, invalid_payload_crc, invalid_protocol_version,
  invalid_packet_type, invalid_number_of_block, payload_exceed_max_size, ka_timeout, dip_timeout,
  request_overrun, request_not_found, invalid_cmd_ack_format, data_too_big,
  write_while_disconnected, connection_failed, write_queue_full, read_queue_full,
  write_while_closed, internal, other, ErrorCode, no_error, packet_code, appli_code, transport_code,
  usb_code, asio_code,
}
use libhdcp.Messages.{
  StdCode, packet_category, appli_category, transport_category, usb_category, asio_category,
  system_category, packet_errc, appli_errc, transport_errc, unknown, error_code, message, what,
}

module _ (libusb_error_name asio_message system_message : ℕ → String) where
  -- The codes of the library's own categories.
  abbrev pub IsOwn : ErrorCode → Type 0
  IsOwn (packet_code e) = Unit {0}
  IsOwn (appli_code e) = Unit {0}
  IsOwn (transport_code e) = Unit {0}
  IsOwn _ = ⊥

  abbrev own_codes : List ErrorCode
  own_codes =
      packet_code sop_not_found
      ∷ packet_code invalid_buffer_size
      ∷ packet_code invalid_header_crc
      ∷ packet_code invalid_payload_crc
      ∷ packet_code invalid_protocol_version
      ∷ packet_code invalid_packet_type
      ∷ packet_code invalid_number_of_block
      ∷ packet_code payload_exceed_max_size
      ∷ appli_code ka_timeout
      ∷ appli_code dip_timeout
      ∷ appli_code request_overrun
      ∷ appli_code request_not_found
      ∷ appli_code invalid_cmd_ack_format
      ∷ appli_code data_too_big
      ∷ appli_code write_while_disconnected
      ∷ appli_code connection_failed
      ∷ transport_code write_queue_full
      ∷ transport_code read_queue_full
      ∷ transport_code write_while_closed
      ∷ transport_code internal
      ∷ transport_code other
      ∷ []

  -- The message of a code.
  abbrev text_of : ErrorCode → String
  text_of c = message libusb_error_name asio_message system_message (error_code c)

  -- The first of some codes with that message.
  abbrev code_with : String → List ErrorCode → Option ErrorCode
  code_with text [] = none
  code_with text (c ∷ cs) = if str_eq (text_of c) text then some c else code_with text cs

  abbrev code_of : StdCode → Option ErrorCode
  code_of c = elim c.category [
    | packet_category ↦ map_some packet_code (packet_errc c.value)
    | appli_category ↦ map_some appli_code (appli_errc c.value)
    | transport_category ↦ map_some transport_code (transport_errc c.value)
    | usb_category ↦ none
    | asio_category ↦ none
    | system_category ↦ none
  ]

  -- A code is found by its message and by what it is made of, and is not zero.
  own_lem :
      (c : ErrorCode)
      → IsOwn c
      → (code_with (text_of c) own_codes ≡ some c)
        × (code_of (error_code c) ≡ some c)
        × ((error_code c).value ≢ 0)
  unfolding message error_code
  own_lem no_error own = elim own [ ]
  own_lem (usb_code n) own = elim own [ ]
  own_lem (asio_code n) own = elim own [ ]
  own_lem (packet_code sop_not_found) own = (refl, refl, λ e. cc)
  own_lem (packet_code invalid_buffer_size) own = (refl, refl, λ e. cc)
  own_lem (packet_code invalid_header_crc) own = (refl, refl, λ e. cc)
  own_lem (packet_code invalid_payload_crc) own = (refl, refl, λ e. cc)
  own_lem (packet_code invalid_protocol_version) own = (refl, refl, λ e. cc)
  own_lem (packet_code invalid_packet_type) own = (refl, refl, λ e. cc)
  own_lem (packet_code invalid_number_of_block) own = (refl, refl, λ e. cc)
  own_lem (packet_code payload_exceed_max_size) own = (refl, refl, λ e. cc)
  own_lem (appli_code ka_timeout) own = (refl, refl, λ e. cc)
  own_lem (appli_code dip_timeout) own = (refl, refl, λ e. cc)
  own_lem (appli_code request_overrun) own = (refl, refl, λ e. cc)
  own_lem (appli_code request_not_found) own = (refl, refl, λ e. cc)
  own_lem (appli_code invalid_cmd_ack_format) own = (refl, refl, λ e. cc)
  own_lem (appli_code data_too_big) own = (refl, refl, λ e. cc)
  own_lem (appli_code write_while_disconnected) own = (refl, refl, λ e. cc)
  own_lem (appli_code connection_failed) own = (refl, refl, λ e. cc)
  own_lem (transport_code write_queue_full) own = (refl, refl, λ e. cc)
  own_lem (transport_code read_queue_full) own = (refl, refl, λ e. cc)
  own_lem (transport_code write_while_closed) own = (refl, refl, λ e. cc)
  own_lem (transport_code internal) own = (refl, refl, λ e. cc)
  own_lem (transport_code other) own = (refl, refl, λ e. cc)

  unknown_lem : code_with unknown own_codes ≡ none
  unfolding message error_code
  unknown_lem = refl

  -- Two different errors of the library have codes that test as errors, and that differ, as do
  -- their messages; and neither message is the one for unknown codes.
  pub error_code_lem :
      (c d : ErrorCode)
      → IsOwn c
      → IsOwn d
      → c ≢ d
      → ((error_code c).value ≢ 0)
        × ((error_code d).value ≢ 0)
        × (error_code c ≢ error_code d)
        × (what libusb_error_name asio_message system_message c none
            ≢ what libusb_error_name asio_message system_message d none)
        × (what libusb_error_name asio_message system_message c none ≢ unknown)
        × (what libusb_error_name asio_message system_message d none ≢ unknown)
  unfolding what
  error_code_lem c d own_c own_d differ =
      let (found, made, some_value) = own_lem c own_c in
      let (found_d, made_d, some_d) = own_lem d own_d in
      (
        some_value,
        some_d,
        λ e. differ (cc (made, made_d, e)),
        λ e. differ (cc (found, found_d, e)),
        λ e. cc (unknown_lem, found, e),
        λ e. cc (unknown_lem, found_d, e),
      )
