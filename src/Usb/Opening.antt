-- ===== src/Usb/Opening.antt =====
-- How the transport of src/usb_async.cpp fails to open.
use libhdcp.Base.{◌≡◌, refl, ap, ◌∙◌, false, some, none, ok, err, ℕ, libusb_error, if◌then◌else◌}
use libhdcp.Base.State.{gets, ◌>>=◌, ◌>>◌, >>-ok, >>-err}
use libhdcp.Interfaces.{Thread}
use libhdcp.Queues.{PacketQueue}
use libhdcp.Usb.Libusb.{Libusb}
use libhdcp.Usb.Device

module _ (H : Thread) (Q : PacketQueue) (L : Libusb) where
  abbrev State : Type 0
  State = Device.Device H Q L

  -- The device was found.
  abbrev held : L.Handle → State → State
  held h s = record s {
    context = (L.open_device s.vendor_id s.product_id s.context).1;
    device_handle = some h;
  }

  claim_lem :
      (s : State) (h : L.Handle) (n : ℕ)
      → let detached = L.set_auto_detach h s.context in
        let claimed = L.claim_interface h s.itfc_nb detached.1 in
        detached.0 ≡ none
        → claimed.0 ≡ some n
        → Device.claim_device H Q L h s ≡ (err (libusb_error n), record s { context = claimed.1 })
  unfolding Device.claim_device
  claim_lem s h n detached claimed =
      let t = record s { context = (L.set_auto_detach h s.context).1 } in
      let claim = gets (λ (u : State). u.itfc_nb) >>= λ itfc.
      Device.on_context H Q L (L.claim_interface h itfc) >>= Device.check H Q L in
      >>-ok (Device.on_context H Q L (L.set_auto_detach h) >>= Device.check H Q L) claim s t
        (ap (λ o. Device.check H Q L o t) detached)
      ∙ ap
          (λ o. Device.check H Q L o (record s {
            context = (L.claim_interface h s.itfc_nb (L.set_auto_detach h s.context).1).1;
          }))
          claimed

  -- A transport that is not open, whose device is found and takes the option of the kernel driver,
  -- but whose interface is refused with an error of libusb: `open` throws this error and leaves
  -- the handle of the open device behind, and a `close` that follows does nothing.
  pub refused_claim_lem :
      (s : State) (h : L.Handle) (n : ℕ)
      → s.opened ≡ false
      → let found = L.open_device s.vendor_id s.product_id s.context in
        let detached = L.set_auto_detach h found.1 in
        found.0 ≡ some h
        → detached.0 ≡ none
        → (L.claim_interface h s.itfc_nb detached.1).0 ≡ some n
        → let r = Device.open_transport H Q L s in
          (r.0 ≡ err (libusb_error n))
          × (r.1.device_handle ≡ some h)
          × (r.1.opened ≡ false)
          × (Device.close H Q L r.1 ≡ (ok tt, r.1))
  unfolding Device.open_transport Device.open_device Device.no_device Device.close
  refused_claim_lem s h n closed found detached claimed =
      let c = (L.open_device s.vendor_id s.product_id s.context).1 in
      let rest = λ (k : L.Handle). Device.claim_device H Q L k >> Device.make_transfers H Q L k in
      let t = record (held h s) {
        context = (L.claim_interface h s.itfc_nb (L.set_auto_detach h c).1).1;
      } in
      let run : Device.open_transport H Q L s ≡ (err (libusb_error n), t) =
        ap (λ b. if b then (ok tt, s) else Device.open_device H Q L s) closed
        ∙ ap
            (λ o. (Device.no_device H Q L o >>= rest) (record s { context = c; device_handle = o }))
            found
        ∙ >>-err (Device.claim_device H Q L h) (Device.make_transfers H Q L h) (held h s) t
            (libusb_error n) (claim_lem (held h s) h n detached claimed) in
      rw run
        (refl, refl, closed, ap (λ b. if b then Device.close_device H Q L t else (ok tt, t)) closed)
