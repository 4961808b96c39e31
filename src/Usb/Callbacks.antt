-- ===== src/Usb/Callbacks.antt =====
-- The callbacks of src/usb_async.cpp, and the thread that makes libusb call them.
use libhdcp.Base.{
  ℕ, true, false, Result, ok, err, List, [], ◌∷◌, Option, some, none, transport_code, other,
  Exception, packet_error, transport_error, read_queue_full, libusb_error, TransportErrc, is_ok,
  if◌then◌else◌,
}
use libhdcp.Base.State.{M, pure, throw, modify, lift, gets, ◌>>=◌, ◌>>◌}
use libhdcp.Interfaces.{Thread}
use libhdcp.Packet.Parse.{Packet, from_view}
use libhdcp.Queues.{PacketQueue}
use libhdcp.Usb.Libusb.{Libusb, Status, completed, cancelled, timed_out, unknown}
use libhdcp.Usb.Device.{WTransfer, without}
use libhdcp.Usb.Device

-- What libusb calls: which callback, with the status and, for a read, the bytes in the buffer.
pub data Callback : Type 0 where
  on_write : ℕ → Status → Callback
  on_read : ℕ → Status → List ℕ → Callback

module _ (H : Thread) (Q : PacketQueue) (L : Libusb) where
  abbrev pub Dev : Type 0
  Dev = Device.Device H Q L

  -- `catch (std::exception& e)` of a callback: the exception is kept for the thread.
  unfoldable pub keep : Result (Unit {0}) × Dev → Dev
  keep (ok u, s) = s
  keep (err e, s) = record s { eptr = some e }

  -- The next packet is sent, or the transfer is put on hold.
  unfoldable pub send_next : Option Packet → WTransfer → M Dev (Unit {0})
  unfolding Device.send
  send_next (some p) w = Device.send H Q L p w
  send_next none w = modify (λ s. record s { wtransfer = some (record w { in_progress = false }) })

  unfoldable pub write_completed : M Dev (Unit {0})
  unfolding send_next
  write_completed = do
    p ← gets (λ s. (Q.try_dequeue s.write_queue).0)
    modify (λ s. record s { write_queue = (Q.try_dequeue s.write_queue).1 })
    w ← gets (λ s. s.wtransfer) >>= Device.follow H Q L
    send_next p w

  -- The `switch` of `write_cb`; `notify_cancelled` ends the wait of `cancel`.
  unfoldable pub write_ended : Status → M Dev (Unit {0})
  unfolding write_completed
  write_ended completed = write_completed
  write_ended cancelled = pure tt
  write_ended unknown = pure tt
  write_ended status = throw (libusb_error (L.status_code status))

  unfoldable pub write_cb : Status → Dev → Dev
  unfolding write_ended keep
  write_cb status s = keep (write_ended status s)

  -- The other transfer is submitted, and the two pointers change places.
  unfoldable pub exchange : M Dev (Unit {0})
  unfolding Device.submit
  exchange = do
    tmp ← gets (λ s. s.rtransfer_curr)
    modify (λ s. record s { rtransfer_curr = s.rtransfer_prev })
    c ← gets (λ s. s.rtransfer_curr) >>= Device.follow H Q L
    Device.submit H Q L c
    modify (λ s. record s { rtransfer_prev = tmp })

  -- `read_queue_.try_enqueue(std::string_view(...))`: a packet is made of the bytes; it is dropped
  -- if the queue does not take it.
  unfoldable pub take_bytes : List ℕ → M Dev (Unit {0})
  take_bytes bytes = do
    p ← lift (from_view bytes)
    modify (λ s. record s { read_queue = (Q.try_enqueue p s.read_queue).1 })

  -- The `switch` of `read_cb`.
  unfoldable pub read_ended : Status → List ℕ → M Dev (Unit {0})
  unfolding exchange take_bytes
  read_ended completed bytes = do exchange; take_bytes bytes
  read_ended cancelled bytes = pure tt
  read_ended timed_out bytes = exchange
  read_ended unknown bytes = pure tt
  read_ended status bytes = throw (libusb_error (L.status_code status))

  unfoldable pub read_cb : Status → List ℕ → Dev → Dev
  unfolding read_ended keep
  read_cb status bytes s = keep (read_ended status bytes s)

  -- A transfer that has ended is not in flight when its callback is called.
  unfoldable pub call_back : Callback → Dev → Dev
  unfolding write_cb read_cb
  call_back (on_write i status) s = write_cb status (record s { in_flight = without i s.in_flight })
  call_back (on_read i status bytes) s =
      read_cb status bytes (record s { in_flight = without i s.in_flight })

  -- `libusb_handle_events`
  unfoldable pub call_all : List Callback → Dev → Dev
  unfolding call_back
  call_all [] s = s
  call_all (c ∷ cs) s = call_all cs (call_back c s)

  -- The end of `run` after its loop: `close`, and what is thrown is told by the error.
  unfoldable pub leave : Dev → Dev
  unfolding Device.close
  leave s =
      let out = record s { looping = false } in
      let closed = Device.close H Q L out in
      if is_ok closed.0 then closed.1 else record closed.1 { errc = transport_code other }

  unfoldable pub leave_with : TransportErrc → Dev → Dev
  unfolding leave
  leave_with e s = leave (record s { errc = transport_code e })

  -- The `catch` clauses in the loop of `run`.
  unfoldable pub caught : Exception → Dev → Dev
  unfolding leave_with
  caught (packet_error e) s = s
  caught (transport_error read_queue_full) s = s
  caught (transport_error e) s = leave_with e s
  caught _ s = leave_with other s

  unfoldable pub rethrow : Option Exception → Dev → Dev
  unfolding caught
  rethrow none s = s
  rethrow (some e) s = caught e s

  -- One round of the loop of `run`.
  unfoldable pub run_round : List Callback → Dev → Dev
  unfolding call_all rethrow leave
  run_round cs s =
      let t = call_all cs (record s { eptr = none }) in
      if H.is_running s.thread then rethrow t.eptr t else leave s

  -- `run` up to its loop: the first read is submitted.
  unfoldable pub begin_run : Dev → Dev
  unfolding Device.submit
  begin_run s =
      let first =
        (do c ← gets (λ s. s.rtransfer_curr) >>= Device.follow H Q L; Device.submit H Q L c) s in
      if is_ok first.0
      then record first.1 { looping = true }
      else record first.1 { errc = transport_code other }

  unfoldable pub start : M Dev (Unit {0})
  unfolding Device.open_transport begin_run
  start s =
      if H.is_running s.thread
      then (ok tt, s)
      else (do
        Device.open_transport H Q L
        modify (λ s. begin_run (record s { thread = H.start s.thread })))
          s
