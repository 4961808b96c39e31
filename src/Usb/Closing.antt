-- ===== src/Usb/Closing.antt =====
-- What `close` of src/usb_async.cpp and the end of its thread keep.
use libhdcp.Base.{
  ℕ, ◌≡◌, sym, Bool, true, false, Result, is_ok, ok, err, ◌++◌, Option, some, none, transport_code,
  other, if◌then◌else◌,
}
use mathlib.Core.Path.{subst}
use libhdcp.Base.State.{M, modify, gets, ◌>>=◌, ◌>>◌, Preserves, Preserves-bind}
use libhdcp.Interfaces.{Thread}
use libhdcp.Queues.{PacketQueue}
use libhdcp.Usb.Libusb.{Libusb}
use libhdcp.Usb.Device
use libhdcp.Usb.Callbacks

module _ (H : Thread) (Q : PacketQueue) (L : Libusb) where
  abbrev State : Type 0
  State = Callbacks.Dev H Q L

  -- The transfers are deleted.
  abbrev pub forget : State → State
  forget s = record s {
    deleted = s.deleted ++ Device.pointed H Q L s;
    wtransfer = none;
    rtransfer_curr = none;
    rtransfer_prev = none;
  }

  -- A predicate that does not look at what `close` changes after that.
  abbrev pub IsSettled : (State → Type 0) → Type 0
  IsSettled P =
      (s : State) (c : L.Context) (d : Option L.Handle) (o : Bool)
      → P s
      → P (record s { context = c; device_handle = d; opened = o })

  module _ (P : State → Type 0) (st : IsSettled P) where
    pub check_keeps : (o : Option ℕ) → Preserves P (Device.check H Q L o)
    check_keeps none s h = h
    check_keeps (some n) s h = h

    pub follow_keeps : {A : Type 0} (o : Option A) → Preserves P (Device.follow H Q L o)
    follow_keeps none s h = h
    follow_keeps (some a) s h = h

    abbrev give_back : L.Handle → M State (Unit {0})
    give_back h = do
      itfc ← gets (λ s. s.itfc_nb)
      ret ← Device.on_context H Q L (L.release_interface h itfc)
      modify (λ s. record s {
        context = L.close_device h s.context;
        device_handle = none;
        opened = false;
      })
      Device.check H Q L ret

    give_back_keeps : (h : L.Handle) → Preserves P (give_back h)
    give_back_keeps h s l =
        check_keeps (L.release_interface h s.itfc_nb s.context).0 _
          (st s (L.close_device h (L.release_interface h s.itfc_nb s.context).1) none false l)

    pub close_keeps : (s : State) → s.opened ≡ true → P (forget s) → P (Device.close H Q L s).1
    unfolding Device.close Device.close_device
    close_keeps s o l =
        subst (λ b. P (if b then Device.close_device H Q L s else (ok tt, s)).1) (sym o)
          (Preserves-bind P (gets (λ t. t.device_handle) >>= Device.follow H Q L) give_back
            (Preserves-bind P (gets (λ t. t.device_handle)) (Device.follow H Q L) (λ t h. h)
              follow_keeps)
            give_back_keeps (forget s) l)

    -- An exception of `close` is told by the error, and nothing else is changed.
    pub told_keeps :
        (r : Result (Unit {0}) × State)
        → P r.1
        → P (record r.1 { errc = transport_code other })
        → P (if is_ok r.0 then r.1 else record r.1 { errc = transport_code other })
    told_keeps (ok u, s) l t = l
    told_keeps (err e, s) l t = t

    pub closed_keeps : (s : State) → s.opened ≡ false → P s → P (Device.close H Q L s).1
    unfolding Device.close
    closed_keeps s o l =
        subst (λ b. P (if b then Device.close_device H Q L s else (ok tt, s)).1) (sym o) l
