-- ===== src/Usb/Life.antt =====
-- The life of an open device of src/usb_async.cpp as a relation between states: packets are written,
-- and transfers end in any order and with any status.
use libhdcp.Base.{ℕ, ◌≡◌, List, some, none}
use libhdcp.Interfaces.{Thread}
use libhdcp.Packet.Parse.{Packet}
use libhdcp.Queues.{PacketQueue}
use libhdcp.Usb.Libusb.{Libusb, Status}
use libhdcp.Usb.Device.{WTransfer}
use libhdcp.Usb.Device
use libhdcp.Usb.Callbacks.{on_read, on_write}
use libhdcp.Usb.Callbacks
use libhdcp.Usb.Sending.{IsSending}
use libhdcp.Usb.Sending
use libhdcp.Usb.Ending
use libhdcp.Usb.Writing

module _ (H : Thread) (Q : PacketQueue) (L : Libusb) where
  abbrev State : Type 0
  State = Callbacks.Dev H Q L

  -- The application writes; a callback is called, of the write transfer or of some other transfer;
  -- the thread begins, begins and ends a round of its loop, and leaves the loop; the device is closed
  -- or stopped; a packet that was read is taken.
  pub data Turn (s : State) : State → Type 0 where
    write_called : (p : Packet) → Turn s (Device.write H Q L p s).1
    write_done :
        (w : WTransfer) (st : Status)
        → s.wtransfer ≡ some w
        → Turn s (Callbacks.call_back H Q L (on_write w.id st) s)
    read_done :
        (i : ℕ) (st : Status) (bytes : List ℕ)
        → Turn s (Callbacks.call_back H Q L (on_read i st bytes) s)
    run_began : Turn s (Callbacks.begin_run H Q L s)
    round_began : Turn s (record s { eptr = none })
    round_ended : Turn s (Callbacks.rethrow H Q L s.eptr s)
    run_ended : Turn s (Callbacks.leave H Q L s)
    close_called : Turn s (Device.close H Q L s).1
    stop_called : Turn s (Device.stop H Q L s).1
    packet_taken : Turn s (record s { read_queue = (Q.try_dequeue s.read_queue).1 })

  pub data Turns (s : State) : State → Type 0 where
    at_start : Turns s s
    later : {t u : State} → Turns s t → Turn t u → Turns s u

  Turn-IsSending : (s t : State) → Turn s t → IsSending H Q L s → IsSending H Q L t
  Turn-IsSending s _ (write_called p) h = Writing.write_keeps H Q L p s h
  Turn-IsSending s _ (write_done w st e) h = Writing.write_cb_keeps H Q L st w s e h
  Turn-IsSending s _ (read_done i st bytes) h = Sending.read_keeps H Q L i st bytes s h
  Turn-IsSending s _ run_began h = Ending.begin_run_keeps H Q L s h
  Turn-IsSending s _ round_began h = record {
    held = h.held;
    apart_curr = h.apart_curr;
    apart_prev = h.apart_prev;
  }
  Turn-IsSending s _ round_ended h = Ending.rethrow_keeps H Q L s.eptr s h
  Turn-IsSending s _ run_ended h = Ending.leave_keeps H Q L s h
  Turn-IsSending s _ close_called h = Ending.close_keeps H Q L s h
  Turn-IsSending s _ stop_called h = Ending.stop_keeps H Q L s h
  Turn-IsSending s _ packet_taken h = record {
    held = h.held;
    apart_curr = h.apart_curr;
    apart_prev = h.apart_prev;
  }

  -- Whatever is written, whatever transfers end, and whatever the thread does then, the write transfer is in flight at most once, and
  -- not at all while it is on hold, and it is none of the two read transfers, if it was so at first.
  pub Turns-IsSending : (s t : State) → Turns s t → IsSending H Q L s → IsSending H Q L t
  Turns-IsSending s _ at_start h = h
  Turns-IsSending s u (later {t} turns turn) h =
      Turn-IsSending t u turn (Turns-IsSending s t turns h)
