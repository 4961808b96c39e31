-- ===== src/Usb/Exchange.antt =====
-- The exchange of the two read transfers in src/usb_async.cpp, when libusb takes the one that is
-- submitted and when it refuses.
use libhdcp.Base.{ℕ, ◌≡◌, refl, ap, ◌∙◌, ok, err, [], ◌∷◌, ◌++◌, Option, some, none, libusb_error}
use libhdcp.Base.State.{M, modify, gets, ◌>>=◌, ◌>>◌, >>-ok, >>-err, >>=-ok}
use libhdcp.Interfaces.{Thread}
use libhdcp.Queues.{PacketQueue}
use libhdcp.Usb.Libusb.{Libusb}
use libhdcp.Usb.Device.{WTransfer, without}
use libhdcp.Usb.Device
use libhdcp.Usb.Callbacks.{on_read}
use libhdcp.Usb.Callbacks

module _ (H : Thread) (Q : PacketQueue) (L : Libusb) where
  abbrev State : Type 0
  State = Callbacks.Dev H Q L

  -- The transfer `i` has been submitted.
  abbrev pub submitted : ℕ → State → State
  submitted i s = record s {
    context = (L.submit_transfer i s.context).1;
    in_flight = s.in_flight ++ (i ∷ []);
  }

  pub submit_ok :
      (i : ℕ) (s : State)
      → (L.submit_transfer i s.context).0 ≡ none
      → Device.submit H Q L i s ≡ (ok tt, submitted i s)
  unfolding Device.submit
  submit_ok i s h = rw h refl

  pub submit_err :
      (i n : ℕ) (s : State)
      → (L.submit_transfer i s.context).0 ≡ some n
      → Device.submit H Q L i s
        ≡ (err (libusb_error n), record s { context = (L.submit_transfer i s.context).1 })
  unfolding Device.submit
  submit_err i n s h = rw h refl

  -- The current pointer is the previous one.
  abbrev pub turned : State → State
  turned s = record s { rtransfer_curr = s.rtransfer_prev }

  abbrev keep_previous : Option ℕ → M State (Unit {0})
  keep_previous tmp = modify (λ s. record s { rtransfer_prev = tmp })

  exchange_submits :
      (p : ℕ) (s : State)
      → s.rtransfer_prev ≡ some p
      → Callbacks.exchange H Q L s
        ≡ (Device.submit H Q L p >> keep_previous s.rtransfer_curr) (turned s)
  unfolding Callbacks.exchange
  exchange_submits p s prev =
      >>=-ok (gets (λ t. t.rtransfer_curr) >>= Device.follow H Q L)
        (λ c. Device.submit H Q L c >> keep_previous s.rtransfer_curr) (turned s) (turned s) p
        (ap (λ o. Device.follow H Q L o (turned s)) prev)

  -- The pointers have changed places, and the transfer that is current now is in flight.
  abbrev pub exchanged : ℕ → State → State
  exchanged p s = record (submitted p s) {
    rtransfer_curr = s.rtransfer_prev;
    rtransfer_prev = s.rtransfer_curr;
  }

  pub exchange_ok :
      (p : ℕ) (s : State)
      → s.rtransfer_prev ≡ some p
      → (L.submit_transfer p s.context).0 ≡ none
      → Callbacks.exchange H Q L s ≡ (ok tt, exchanged p s)
  exchange_ok p s prev h =
      exchange_submits p s prev
      ∙ >>-ok (Device.submit H Q L p) (keep_previous s.rtransfer_curr) (turned s)
          (submitted p (turned s)) (submit_ok p (turned s) h)

  -- The submission failed: both pointers are the previous one.
  abbrev pub stuck : ℕ → State → State
  stuck p s = record s {
    context = (L.submit_transfer p s.context).1;
    rtransfer_curr = s.rtransfer_prev;
  }

  pub exchange_err :
      (p n : ℕ) (s : State)
      → s.rtransfer_prev ≡ some p
      → (L.submit_transfer p s.context).0 ≡ some n
      → Callbacks.exchange H Q L s ≡ (err (libusb_error n), stuck p s)
  exchange_err p n s prev h =
      exchange_submits p s prev
      ∙ >>-err (Device.submit H Q L p) (keep_previous s.rtransfer_curr) (turned s) (stuck p s)
          (libusb_error n) (submit_err p n (turned s) h)
