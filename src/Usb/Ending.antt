-- ===== src/Usb/Ending.antt =====
-- The write transfer when the thread of src/usb_async.cpp begins and ends, and when the device stops.
use libhdcp.Base.{
  ℕ, sym, ap, Bool, true, false, Bool-cases, Option-cases, inl, inr, Result, is_ok, ok, err, Option,
  some, none, ErrorCode, Exception, transport_code, other, TransportErrc, packet_error,
  transport_error, read_queue_full, libusb_error, null_pointer, if◌then◌else◌,
}
use mathlib.Core.Path.{subst}
use libhdcp.Base.State.{
  M, modify, gets, ◌>>=◌, ◌>>◌, Preserves, Preserves-bind, Preserves-seq, >>=-ok, >>=-err,
}
use libhdcp.Interfaces.{Thread}
use libhdcp.Queues.{PacketQueue}
use libhdcp.Usb.Libusb.{Libusb, Cancel, requested, not_found, refused}
use libhdcp.Usb.Device.{without}
use libhdcp.Usb.Device
use libhdcp.Usb.Callbacks
use libhdcp.Usb.Closing
use libhdcp.Usb.Exchange
use libhdcp.Usb.Sending.{IsSending, Apart, Held-append, Held-without}

module _ (H : Thread) (Q : PacketQueue) (L : Libusb) where
  abbrev State : Type 0
  State = Callbacks.Dev H Q L

  abbrev Kept : State → Type 0
  Kept = IsSending H Q L

  settled : Closing.IsSettled H Q L Kept
  settled s c d o h = record { held = h.held; apart_curr = h.apart_curr; apart_prev = h.apart_prev }

  with_errc : (s : State) (e : ErrorCode) → Kept s → Kept (record s { errc = e })
  with_errc s e h = record { held = h.held; apart_curr = h.apart_curr; apart_prev = h.apart_prev }

  pub close_keeps : Preserves Kept (Device.close H Q L)
  close_keeps s h = elim (Bool-cases s.opened) [
    | inl opened ↦
        Closing.close_keeps H Q L Kept settled s opened
          (record { held = tt; apart_curr = tt; apart_prev = tt })
    | inr closed ↦ Closing.closed_keeps H Q L Kept settled s closed h
  ]

  pub leave_keeps : (s : State) → Kept s → Kept (Callbacks.leave H Q L s)
  unfolding Callbacks.leave
  leave_keeps s h =
      let t = record s { looping = false } in
      let closed =
        close_keeps t
          (record { held = h.held; apart_curr = h.apart_curr; apart_prev = h.apart_prev }) in
      Closing.told_keeps H Q L Kept settled (Device.close H Q L t) closed
        (with_errc (Device.close H Q L t).1 (transport_code other) closed)

  leave_with_keeps :
      (e : TransportErrc) (s : State) → Kept s → Kept (Callbacks.leave_with H Q L e s)
  unfolding Callbacks.leave_with
  leave_with_keeps e s h =
      leave_keeps (record s { errc = transport_code e }) (with_errc s (transport_code e) h)

  caught_keeps : (e : Exception) (s : State) → Kept s → Kept (Callbacks.caught H Q L e s)
  unfolding Callbacks.caught
  caught_keeps (packet_error e) s h = h
  caught_keeps (transport_error read_queue_full) s h = h
  caught_keeps (transport_error e) s h = leave_with_keeps e s h
  caught_keeps _ s h = leave_with_keeps other s h

  pub rethrow_keeps :
      (o : Option Exception) (s : State) → Kept s → Kept (Callbacks.rethrow H Q L o s)
  unfolding Callbacks.rethrow
  rethrow_keeps none s h = h
  rethrow_keeps (some e) s h = caught_keeps e s h

  cancelled_by_keeps : (i : ℕ) (c : Cancel) → Preserves Kept (Device.cancelled_by H Q L i c)
  unfolding Device.cancelled_by
  cancelled_by_keeps i requested s h = record {
    held = Held-without s.wtransfer i s.in_flight h.held;
    apart_curr = h.apart_curr;
    apart_prev = h.apart_prev;
  }
  cancelled_by_keeps i not_found s h = h
  cancelled_by_keeps i (refused n) s h = h

  cancel_if_keeps : (o : Option ℕ) → Preserves Kept (Device.cancel_if H Q L o)
  unfolding Device.cancel
  cancel_if_keeps none s h = h
  cancel_if_keeps (some i) s h =
      cancelled_by_keeps i (L.cancel_transfer i s.context).0
        (record s { context = (L.cancel_transfer i s.context).1 })
        (record { held = h.held; apart_curr = h.apart_curr; apart_prev = h.apart_prev })

  cancel_pointed_keeps :
      (pointer : State → Option ℕ) → Preserves Kept (gets pointer >>= Device.cancel_if H Q L)
  cancel_pointed_keeps pointer =
      Preserves-bind Kept (gets pointer) (Device.cancel_if H Q L) (λ s h. h) cancel_if_keeps

  cancel_transfers_keeps : Preserves Kept (Device.cancel_transfers H Q L)
  unfolding Device.cancel_transfers
  cancel_transfers_keeps =
      let writer = cancel_pointed_keeps (λ s. Device.write_id H Q L s.wtransfer) in
      let curr = cancel_pointed_keeps (λ s. s.rtransfer_curr) in
      let prev = cancel_pointed_keeps (λ s. s.rtransfer_prev) in
      Preserves-seq Kept (gets (λ s. Device.write_id H Q L s.wtransfer) >>= Device.cancel_if H Q L)
        ((gets (λ s. s.rtransfer_curr) >>= Device.cancel_if H Q L)
          >> (gets (λ s. s.rtransfer_prev) >>= Device.cancel_if H Q L))
        writer
        (Preserves-seq Kept (gets (λ s. s.rtransfer_curr) >>= Device.cancel_if H Q L)
          (gets (λ s. s.rtransfer_prev) >>= Device.cancel_if H Q L) curr prev)

  log_libusb_keeps : (r : Result (Unit {0}) × State) → Kept r.1 → Kept (Device.log_libusb H Q L r).1
  log_libusb_keeps (ok u, s) h = h
  log_libusb_keeps (err (libusb_error n), s) h = h
  log_libusb_keeps (err _, s) h = h

  if_keeps :
      (b : Bool) (x y : Result (Unit {0}) × State)
      → Kept x.1
      → Kept y.1
      → Kept (if b then x else y).1
  if_keeps true x y h k = h
  if_keeps false x y h k = k

  pub stop_keeps : Preserves Kept (Device.stop H Q L)
  unfolding Device.stop
  stop_keeps s h =
      let halt = modify (λ (u : State). record u { thread = H.stop u.thread }) in
      if_keeps (H.is_running s.thread)
        (Device.log_libusb H Q L
          ((Device.cancel_transfers H Q L >> (halt >> Device.close H Q L)) s))
        (ok tt, s)
        (log_libusb_keeps ((Device.cancel_transfers H Q L >> (halt >> Device.close H Q L)) s) (
          Preserves-seq Kept (Device.cancel_transfers H Q L) (halt >> Device.close H Q L)
            cancel_transfers_keeps
            (Preserves-seq Kept halt (Device.close H Q L)
              (λ u k. record {
                held = k.held;
                apart_curr = k.apart_curr;
                apart_prev = k.apart_prev;
              })
              close_keeps)
            s h))
        h

  submit_keeps :
      (i : ℕ) (s : State) → Kept s → Apart s.wtransfer (some i) → Kept (Device.submit H Q L i s).1
  submit_keeps i s h a = elim (Option-cases (L.submit_transfer i s.context).0) [
    | inl taken ↦ subst Kept (sym (ap (λ r. r.1) (Exchange.submit_ok H Q L i s taken))) (record {
      held = Held-append s.wtransfer s.in_flight i h.held a;
      apart_curr = h.apart_curr;
      apart_prev = h.apart_prev;
    })
    | inr (n, refusal) ↦
        subst Kept (sym (ap (λ r. r.1) (Exchange.submit_err H Q L i n s refusal)))
          (record { held = h.held; apart_curr = h.apart_curr; apart_prev = h.apart_prev })
  ]

  abbrev first_read : M State (Unit {0})
  first_read = gets (λ s. s.rtransfer_curr) >>= Device.follow H Q L >>= Device.submit H Q L

  first_read_keeps : Preserves Kept first_read
  first_read_keeps s h =
      let found = gets (λ (u : State). u.rtransfer_curr) >>= Device.follow H Q L in
      elim (Option-cases s.rtransfer_curr) [
        | inl missing ↦
            subst Kept
              (sym (
                ap (λ r. r.1)
                  (>>=-err found (Device.submit H Q L) s s null_pointer
                    (ap (λ o. Device.follow H Q L o s) missing))))
              h
        | inr (c, e) ↦
            subst Kept
              (sym (
                ap (λ r. r.1)
                  (>>=-ok found (Device.submit H Q L) s s c (ap (λ o. Device.follow H Q L o s) e))))
              (submit_keeps c s h (subst (Apart s.wtransfer) e h.apart_curr))
      ]

  pub begin_run_keeps : (s : State) → Kept s → Kept (Callbacks.begin_run H Q L s)
  unfolding Callbacks.begin_run
  begin_run_keeps s h = begun (first_read s) (first_read_keeps s h)
    where
      begun :
          (r : Result (Unit {0}) × State)
          → Kept r.1
          → Kept (
              if is_ok r.0
              then record r.1 { looping = true }
              else record r.1 { errc = transport_code other })
      begun (ok u, t) k = record {
        held = k.held;
        apart_curr = k.apart_curr;
        apart_prev = k.apart_prev;
      }
      begun (err e, t) k = with_errc t (transport_code other) k
