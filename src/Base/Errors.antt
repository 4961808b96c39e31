-- ===== src/Base/Errors.antt =====
-- The exceptions that the library throws (src/exception.h and the three error enumerations), and
-- a function that returns or throws.
use Prim.Native.Nat.{ℕ}
use mathlib.Core.Bool.{Bool, true, false}
use mathlib.Core.Path.{◌≡◌, refl}
use mathlib.Core.Option.{Option, none, some}
use mathlib.Core.Logic.{◌⊎◌, ◌≢◌, inl, inr}

-- packet::Errc
pub data PacketErrc : Type 0 where
  sop_not_found invalid_buffer_size invalid_header_crc invalid_payload_crc : PacketErrc
  invalid_protocol_version invalid_packet_type invalid_number_of_block : PacketErrc
  payload_exceed_max_size : PacketErrc

-- appli::Errc
pub data AppliErrc : Type 0 where
  ka_timeout dip_timeout request_overrun request_not_found invalid_cmd_ack_format : AppliErrc
  data_too_big write_while_disconnected connection_failed : AppliErrc

-- transport::Errc
pub data TransportErrc : Type 0 where
  write_queue_full read_queue_full write_while_closed internal other : TransportErrc

-- What is thrown: packet_error, application_error, transport_error, and libusb_error or asio_error
-- with the foreign code. The next three are other std::exceptions: of vector::at, of an allocation,
-- and of a boost function, with its code. The last two stand for undefined behaviour: the use of a
-- null pointer, and a read or a write outside of an array.
pub data Exception : Type 0 where
  packet_error : PacketErrc → Exception
  application_error : AppliErrc → Exception
  transport_error : TransportErrc → Exception
  libusb_error : ℕ → Exception
  asio_error : ℕ → Exception
  out_of_range bad_alloc : Exception
  system_error : ℕ → Exception
  null_pointer out_of_bounds : Exception

-- std::error_code, of one of the five categories or without an error.
pub data ErrorCode : Type 0 where
  no_error : ErrorCode
  packet_code : PacketErrc → ErrorCode
  appli_code : AppliErrc → ErrorCode
  transport_code : TransportErrc → ErrorCode
  usb_code : ℕ → ErrorCode
  asio_code : ℕ → ErrorCode

-- `code()` of an hdcp_error; other exceptions have none.
abbrev pub code : Exception → Option ErrorCode
code (packet_error e) = some (packet_code e)
code (application_error e) = some (appli_code e)
code (transport_error e) = some (transport_code e)
code (libusb_error n) = some (usb_code n)
code (asio_error n) = some (asio_code n)
code out_of_range = none
code bad_alloc = none
code (system_error n) = none
code null_pointer = none
code out_of_bounds = none

pub data Result {ℓ} (A : Type ℓ) : Type ℓ where
  ok : A → Result A
  err : Exception → Result A

-- What follows a call that threw is skipped.
infixl 5 ◌>>◌ ◌>>=◌
abbrev pub ◌>>=◌ {ℓA ℓB} : {A : Type ℓA} {B : Type ℓB} → Result A → (A → Result B) → Result B
err thrown >>= rest = err thrown
ok result >>= rest = rest result

abbrev pub ◌>>◌ {ℓB} : {B : Type ℓB} → Result (Unit {0}) → Result B → Result B
first >> rest = first >>= λ _. rest

-- Whether a call returns.
abbrev pub is_ok {ℓ} : {A : Type ℓ} → Result A → Bool
is_ok (ok a) = true
is_ok (err e) = false

-- The call is made for what it throws.
abbrev pub discard {ℓ} : {A : Type ℓ} → Result A → Result (Unit {0})
discard (ok a) = ok tt
discard (err e) = err e

-- `if (!test) throw hdcp::packet_error(e)`
abbrev pub guard : Bool → PacketErrc → Result (Unit {0})
guard true e = ok tt
guard false e = err (packet_error e)

-- A bind does not throw what neither of its calls throws.
pub >>=-ne {ℓA ℓB} :
    {A : Type ℓA} {B : Type ℓB} (call : Result A) (rest : A → Result B) (thrown : Exception)
    → call ≢ err thrown
    → ((value : A) → call ≡ ok value → rest value ≢ err thrown)
    → (call >>= rest) ≢ err thrown
>>=-ne (err exception) rest thrown first later e = first (cc e)
>>=-ne (ok value) rest thrown first later e = later value refl e

-- A bind that returns has two calls that return.
pub >>=-eq-ok {ℓA ℓB} :
    {A : Type ℓA} {B : Type ℓB} (call : Result A) (rest : A → Result B) {result : B}
    → (call >>= rest) ≡ ok result
    → (value : A) × (call ≡ ok value) × (rest value ≡ ok result)
>>=-eq-ok (err thrown) rest e = cc
>>=-eq-ok (ok value) rest e = (value, refl, e)

pub Result-cases {ℓ} :
    {A : Type ℓ} (r : Result A) → ((a : A) × (r ≡ ok a)) ⊎ ((e : Exception) × (r ≡ err e))
Result-cases (ok a) = inl (a, refl)
Result-cases (err e) = inr (e, refl)
