-- ===== src/Usb/Writing.antt =====
-- What src/usb_async.cpp does with its write transfer keeps it from being in flight twice.
use libhdcp.Base.{
  ℕ, ◌≡◌, ◌≤◌, sym, ap, ◌∙◌, true, err, [], ◌∷◌, Option, some, none, arith, Option-cases,
  Bool-cases, inl, inr, if◌then◌else◌, null_pointer, libusb_error, transport_error,
  write_while_closed,
}
use mathlib.Core.Path.{subst}
use libhdcp.Base.State.{M, modify, gets, ◌>>=◌, >>=-ok, >>-ok, >>-err, >>=-err, Preserves}
use libhdcp.Interfaces.{Thread}
use libhdcp.Packet.Parse.{Packet}
use libhdcp.Queues.{PacketQueue}
use libhdcp.Usb.Libusb.{Libusb, Status, completed}
use libhdcp.Usb.Device.{WTransfer, without}
use libhdcp.Usb.Device
use libhdcp.Usb.Callbacks.{Callback, on_read, on_write}
use libhdcp.Usb.Callbacks
use libhdcp.Usb.Exchange
use libhdcp.Usb.Sending.{Held, Apart}
use libhdcp.Usb.Sending
use libhdcp.Usb.Flight.{times, times-append, times-without}

module _ (H : Thread) (Q : PacketQueue) (L : Libusb) where
  abbrev State : Type 0
  State = Callbacks.Dev H Q L

  -- The writer `w` is not in flight.
  pub record IsReady (w : WTransfer) (s : State) : Type 0 where
    pub at_rest : times w.id s.in_flight ≡ 0
    pub other_curr : Apart (some w) s.rtransfer_curr
    pub other_prev : Apart (some w) s.rtransfer_prev

  on_hold :
      (w : WTransfer) (s : State) → s.wtransfer ≡ some w → IsReady w s → Sending.IsSending H Q L s
  on_hold w s e r = record {
    held = subst (λ o. Held o s.in_flight) (sym e) (ground (arith, r.at_rest));
    apart_curr = subst (λ o. Apart o s.rtransfer_curr) (sym e) r.other_curr;
    apart_prev = subst (λ o. Apart o s.rtransfer_prev) (sym e) r.other_prev;
  }

  -- Whatever the packet and the flag were, the transfer is in flight once, or libusb has refused it.
  send_keeps :
      (p : Packet) (w : WTransfer) (s : State)
      → IsReady w s
      → Sending.IsSending H Q L (Device.send H Q L p w s).1
  unfolding Device.send Device.submit_write
  send_keeps p w s r =
      let q = record w { packet = p } in
      let u = record s { wtransfer = some q } in
      let flag = λ (v : State). record v { wtransfer = some (record q { in_progress = true }) } in
      elim (Option-cases (L.submit_transfer w.id s.context).0) [
        | inl taken ↦
            subst (Sending.IsSending H Q L)
              (sym (
                ap (λ x. x.1)
                  (>>-ok (Device.submit H Q L w.id) (modify flag) u
                    (Exchange.submitted H Q L w.id u) (Exchange.submit_ok H Q L w.id u taken))))
              (record {
                held =
                    omega (arith, times-append w.id s.in_flight (w.id ∷ []), r.at_rest, once w.id);
                apart_curr = r.other_curr;
                apart_prev = r.other_prev;
              })
        | inr (n, refused) ↦
            subst (Sending.IsSending H Q L)
              (sym (
                ap (λ x. x.1)
                  (>>-err (Device.submit H Q L w.id) (modify flag) u
                    (record u { context = (L.submit_transfer w.id s.context).1 }) (libusb_error n)
                    (Exchange.submit_err H Q L w.id n u refused))))
              (record {
                held = ground (arith, r.at_rest);
                apart_curr = r.other_curr;
                apart_prev = r.other_prev;
              })
      ]
    where
      once : (i : ℕ) → times i (i ∷ []) ≡ 1
      once i = ground arith

  send_next_keeps :
      (o : Option Packet) (w : WTransfer) (s : State)
      → IsReady w s
      → Sending.IsSending H Q L (Callbacks.send_next H Q L o w s).1
  unfolding Callbacks.send_next
  send_next_keeps (some p) w s r = send_keeps p w s r
  send_next_keeps none w s r = record {
    held = omega (arith, r.at_rest);
    apart_curr = r.other_curr;
    apart_prev = r.other_prev;
  }

  write_completed_keeps :
      (w : WTransfer) (s : State)
      → s.wtransfer ≡ some w
      → IsReady w s
      → Sending.IsSending H Q L (Callbacks.write_completed H Q L s).1
  unfolding Callbacks.write_completed
  write_completed_keeps w s e r =
      let p = (Q.try_dequeue s.write_queue).0 in
      let u = record s { write_queue = (Q.try_dequeue s.write_queue).1 } in
      subst (Sending.IsSending H Q L)
        (sym (
          ap (λ x. x.1)
            (>>=-ok (gets (λ v. v.wtransfer) >>= Device.follow H Q L) (Callbacks.send_next H Q L p)
              u u w (ap (λ o. Device.follow H Q L o u) e))))
        (send_next_keeps p w u
          (record { at_rest = r.at_rest; other_curr = r.other_curr; other_prev = r.other_prev }))

  write_ended_keeps :
      (st : Status) (w : WTransfer) (s : State)
      → s.wtransfer ≡ some w
      → IsReady w s
      → Sending.IsSending H Q L (Callbacks.write_ended H Q L st s).1
  unfolding Callbacks.write_ended
  write_ended_keeps completed w s e r = write_completed_keeps w s e r
  write_ended_keeps _ w s e r = on_hold w s e r

  pub write_cb_keeps :
      (st : Status) (w : WTransfer) (s : State)
      → s.wtransfer ≡ some w
      → Sending.IsSending H Q L s
      → Sending.IsSending H Q L (Callbacks.call_back H Q L (on_write w.id st) s)
  unfolding Callbacks.call_back Callbacks.write_cb
  write_cb_keeps st w s e h =
      let t = record s { in_flight = without w.id s.in_flight } in
      let most : times w.id s.in_flight ≤ 1 =
        ground (arith, subst (λ o. Held o s.in_flight) e h.held) in
      Sending.keep_keeps H Q L (Callbacks.write_ended H Q L st t) (
        write_ended_keeps st w t e (record {
          at_rest = times-without w.id s.in_flight ∙ omega (arith, most);
          other_curr = subst (λ o. Apart o s.rtransfer_curr) e h.apart_curr;
          other_prev = subst (λ o. Apart o s.rtransfer_prev) e h.apart_prev;
        }))

  enqueue_write_keeps :
      (p : Packet) → Preserves (Sending.IsSending H Q L) (Device.enqueue_write H Q L p)
  unfolding Device.enqueue_write
  enqueue_write_keeps p s h = elim (Bool-cases (Q.try_enqueue p s.write_queue).0) [
    | inl taken ↦
        rw taken (record { held = h.held; apart_curr = h.apart_curr; apart_prev = h.apart_prev })
    | inr full ↦
        rw full (record { held = h.held; apart_curr = h.apart_curr; apart_prev = h.apart_prev })
  ]

  abbrev pass_on : Packet → WTransfer → M State (Unit {0})
  pass_on p w = if w.in_progress then Device.enqueue_write H Q L p else Device.send H Q L p w

  pass_on_keeps :
      (p : Packet) (w : WTransfer) (s : State)
      → s.wtransfer ≡ some w
      → Sending.IsSending H Q L s
      → Sending.IsSending H Q L (pass_on p w s).1
  pass_on_keeps p w s e h =
      let held = subst (λ o. Held o s.in_flight) e h.held in
      elim (Bool-cases w.in_progress) [
        | inl busy ↦
            subst
              (λ b.
                Sending.IsSending H Q L
                  ((if b then Device.enqueue_write H Q L p else Device.send H Q L p w) s).1)
              (sym busy) (enqueue_write_keeps p s h)
        | inr idle ↦
            subst
              (λ b.
                Sending.IsSending H Q L
                  ((if b then Device.enqueue_write H Q L p else Device.send H Q L p w) s).1)
              (sym idle)
              (send_keeps p w s (record {
                at_rest = ground (arith, held);
                other_curr = subst (λ o. Apart o s.rtransfer_curr) e h.apart_curr;
                other_prev = subst (λ o. Apart o s.rtransfer_prev) e h.apart_prev;
              }))
      ]

  open_write_keeps :
      (p : Packet) (s : State)
      → Sending.IsSending H Q L s
      → Sending.IsSending H Q L
          ((gets (λ v. v.wtransfer) >>= Device.follow H Q L >>= pass_on p) s).1
  open_write_keeps p s h =
      let found = gets (λ (v : State). v.wtransfer) >>= Device.follow H Q L in
      elim (Option-cases s.wtransfer) [
        | inl missing ↦
            subst (Sending.IsSending H Q L)
              (sym (
                ap (λ x. x.1)
                  (>>=-err found (pass_on p) s s null_pointer
                    (ap (λ o. Device.follow H Q L o s) missing))))
              h
        | inr (w, e) ↦
            subst (Sending.IsSending H Q L)
              (sym (
                ap (λ x. x.1)
                  (>>=-ok found (pass_on p) s s w (ap (λ o. Device.follow H Q L o s) e))))
              (pass_on_keeps p w s e h)
      ]

  pub write_keeps : (p : Packet) → Preserves (Sending.IsSending H Q L) (Device.write H Q L p)
  unfolding Device.write
  write_keeps p s h = elim (Bool-cases s.opened) [
    | inl opened ↦
        subst
          (λ b.
            Sending.IsSending H Q L
              (if b
                then (gets (λ v. v.wtransfer) >>= Device.follow H Q L >>= pass_on p) s
                else (err (transport_error write_while_closed), s)).1)
          (sym opened) (open_write_keeps p s h)
    | inr closed ↦
        subst
          (λ b.
            Sending.IsSending H Q L
              (if b
                then (gets (λ v. v.wtransfer) >>= Device.follow H Q L >>= pass_on p) s
                else (err (transport_error write_while_closed), s)).1)
          (sym closed) h
  ]
