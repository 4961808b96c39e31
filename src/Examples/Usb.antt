-- ===== src/Examples/Usb.antt =====
-- A device with simple libraries, at which the theorems on USB are applied.
use libhdcp.Base.{
  arith, ℕ, ◌≡◌, refl, List, [], ◌∷◌, Bool, true, false, none, some, ok, err, libusb_error,
  no_error,
}
use libhdcp.Packet.Parse.{Packet, from_view}
use libhdcp.Usb.Libusb.{completed, timed_out}
use libhdcp.Usb.Device.{WTransfer}
use libhdcp.Usb.Device
use libhdcp.Usb.Callbacks.{on_read}
use libhdcp.Usb.Callbacks
use libhdcp.Usb.Reading.{ReadsInto, read_lem}
use libhdcp.Usb.Reading
use libhdcp.Usb.Failing.{Left, read_refused_lem}
use libhdcp.Usb.Sending.{IsSending}
use libhdcp.Usb.Life.{at_start, later, write_called, read_done, Turns-IsSending}
use libhdcp.Usb.Libusb.{Libusb}
use libhdcp.Usb.Opening.{refused_claim_lem}
use libhdcp.Examples.Instances.{flag_thread}
use libhdcp.Examples.Transports.{list_queue, bus_usb}

abbrev writer : WTransfer
writer = record { id = 0; packet = record { data_ = [] }; in_progress = false }

-- A device that reads into its transfer 1.
abbrev reading_device : Bool → Device.Device flag_thread list_queue bus_usb
reading_device plugged = record {
  thread = true;
  context = record { next = 3; plugged = plugged };
  device_handle = some tt;
  rtransfer_curr = some 1;
  rtransfer_prev = some 2;
  wtransfer = some writer;
  opened = true;
  itfc_nb = 0;
  vendor_id = 0;
  product_id = 0;
  eptr = none;
  errc = no_error;
  write_queue = [];
  read_queue = [];
  looping = true;
  in_flight = 1 ∷ [];
  deleted = [];
}

abbrev seven : List ℕ
seven = 7 ∷ []

read_lem_example :
    let s = reading_device true in
    let done = Callbacks.call_back flag_thread list_queue bus_usb (on_read 1 completed seven) s in
    let late = Callbacks.call_back flag_thread list_queue bus_usb (on_read 1 timed_out seven) s in
    ReadsInto flag_thread list_queue bus_usb 2 1 done
    × ReadsInto flag_thread list_queue bus_usb 2 1 late
    × (done ≡ Reading.taken flag_thread list_queue bus_usb (from_view seven) late)
    × (late.read_queue ≡ [])
    × (late.eptr ≡ none)
read_lem_example =
    read_lem flag_thread list_queue bus_usb 1 2 seven (reading_device true)
      (record { curr = refl; prev = refl; reading = refl; at_rest = refl }) refl

-- The device is unplugged: transfer 2 is deleted twice.
read_refused_lem_example : Left flag_thread list_queue bus_usb (0 ∷ 2 ∷ 2 ∷ []) (
    Callbacks.run_round flag_thread list_queue bus_usb
      (on_read 1 completed seven ∷ [])
      (reading_device false))
read_refused_lem_example =
    read_refused_lem flag_thread list_queue bus_usb 1 2 4 writer seven (reading_device false) refl
      refl refl refl refl

abbrev Bench : Type 0
Bench = Device.Device flag_thread list_queue bus_usb

abbrev short_packet : ℕ → Packet
short_packet n = record { data_ = n ∷ [] }

abbrev written_twice : Bench
written_twice =
    (Device.write flag_thread list_queue bus_usb (short_packet 2)
      (Device.write flag_thread list_queue bus_usb (short_packet 1) (reading_device true)).1).1

-- Two packets are written while transfer 1 ends.
Turns-IsSending_example :
    IsSending flag_thread list_queue bus_usb
      (Callbacks.call_back flag_thread list_queue bus_usb (on_read 1 completed seven) written_twice)
Turns-IsSending_example =
    Turns-IsSending flag_thread list_queue bus_usb (reading_device true)
      (Callbacks.call_back flag_thread list_queue bus_usb (on_read 1 completed seven) written_twice)
      (later
        (later (later at_start (write_called (short_packet 1))) (write_called (short_packet 2)))
        (read_done 1 completed seven))
      (record { held = omega arith; apart_curr = omega arith; apart_prev = omega arith })

-- Another program has the interface.
abbrev busy_usb : Libusb
busy_usb = record bus_usb { claim_interface = λ h n c. (some 6, c) }

abbrev closed_device : Device.Device flag_thread list_queue busy_usb
closed_device = record {
  thread = false;
  context = record { next = 0; plugged = true };
  device_handle = none;
  rtransfer_curr = none;
  rtransfer_prev = none;
  wtransfer = none;
  opened = false;
  itfc_nb = 0;
  vendor_id = 0;
  product_id = 0;
  eptr = none;
  errc = no_error;
  write_queue = [];
  read_queue = [];
  looping = false;
  in_flight = [];
  deleted = [];
}

refused_claim_lem_example :
    let r = Device.open_transport flag_thread list_queue busy_usb closed_device in
    (r.0 ≡ err (libusb_error 6))
    × (r.1.device_handle ≡ some tt)
    × (r.1.opened ≡ false)
    × (Device.close flag_thread list_queue busy_usb r.1 ≡ (ok tt, r.1))
refused_claim_lem_example =
    refused_claim_lem flag_thread list_queue busy_usb closed_device tt 6 refl refl refl refl
