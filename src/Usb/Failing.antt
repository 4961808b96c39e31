-- ===== src/Usb/Failing.antt =====
-- What src/usb_async.cpp does when libusb refuses a read transfer.
use libhdcp.Base.{
  ℕ, ◌≡◌, refl, sym, ap, ◌∙◌, true, false, List, [], ◌∷◌, ◌++◌, some, none, libusb_error,
  transport_code, other, if◌then◌else◌,
}
use mathlib.Core.Path.{subst}
use libhdcp.Base.State.{>>-err}
use libhdcp.Interfaces.{Thread}
use libhdcp.Queues.{PacketQueue}
use libhdcp.Usb.Libusb.{Libusb, completed}
use libhdcp.Usb.Device.{WTransfer, without}
use libhdcp.Usb.Device
use libhdcp.Usb.Callbacks.{Callback, on_read}
use libhdcp.Usb.Callbacks
use libhdcp.Usb.Closing
use libhdcp.Usb.Exchange
use libhdcp.Usb.Reading

module _ (H : Thread) (Q : PacketQueue) (L : Libusb) where
  abbrev State : Type 0
  State = Callbacks.Dev H Q L

  -- The thread has left its loop on an error, and these transfers were deleted.
  pub record Left (is : List ℕ) (s : State) : Type 0 where
    pub was_deleted : s.deleted ≡ is
    pub out : s.looping ≡ false
    pub told : s.errc ≡ transport_code other

  Left-IsSettled : (is : List ℕ) → Closing.IsSettled H Q L (Left is)
  Left-IsSettled is s c d o l = record { was_deleted = l.was_deleted; out = l.out; told = l.told }

  leave_with-Left :
      (s : State)
      → s.opened ≡ true
      → Left (s.deleted ++ Device.pointed H Q L s) (Callbacks.leave_with H Q L other s)
  unfolding Callbacks.leave_with Callbacks.leave
  leave_with-Left s o =
      let is = s.deleted ++ Device.pointed H Q L s in
      let t = record s { errc = transport_code other; looping = false } in
      let closed : Left is (Device.close H Q L t).1 =
        Closing.close_keeps H Q L (Left is) (Left-IsSettled is) t o
          (record { was_deleted = refl; out = refl; told = refl }) in
      Closing.told_keeps H Q L (Left is) (Left-IsSettled is) (Device.close H Q L t) closed
        (record { was_deleted = closed.was_deleted; out = closed.out; told = refl })

  -- The two read pointers are the same one, and an error is kept for the thread.
  abbrev failed : ℕ → ℕ → ℕ → State → State
  failed c p n s =
      record (Exchange.stuck H Q L p (Reading.ended H Q L c (record s { eptr = none }))) {
        eptr = some (libusb_error n);
      }

  read_failed :
      (c p n : ℕ) (bytes : List ℕ) (s : State)
      → s.rtransfer_prev ≡ some p
      → (L.submit_transfer p s.context).0 ≡ some n
      → Callbacks.call_back H Q L (on_read c completed bytes) (record s { eptr = none })
        ≡ failed c p n s
  unfolding Callbacks.call_back Callbacks.read_cb Callbacks.read_ended Callbacks.keep
  read_failed c p n bytes s prev h =
      let t = Reading.ended H Q L c (record s { eptr = none }) in
      ap (Callbacks.keep H Q L) (
        >>-err (Callbacks.exchange H Q L) (Callbacks.take_bytes H Q L bytes) t
          (Exchange.stuck H Q L p t) (libusb_error n) (Exchange.exchange_err H Q L p n t prev h))

  -- Where libusb refuses the other read transfer when one has ended: the thread leaves its loop,
  -- with both pointers on that other transfer, and `close` deletes it twice, and never the one that
  -- has ended.
  pub read_refused_lem :
      (c p n : ℕ) (w : WTransfer) (bytes : List ℕ) (s : State)
      → H.is_running s.thread ≡ true
      → s.opened ≡ true
      → s.wtransfer ≡ some w
      → s.rtransfer_prev ≡ some p
      → (L.submit_transfer p s.context).0 ≡ some n
      → Left
          (s.deleted ++ (w.id ∷ p ∷ p ∷ []))
          (Callbacks.run_round H Q L (on_read c completed bytes ∷ []) s)
  unfolding Callbacks.run_round Callbacks.call_all Callbacks.rethrow Callbacks.caught
  read_refused_lem c p n w bytes s running opened writer prev h =
      let t = failed c p n s in
      let round : Callbacks.run_round H Q L (on_read c completed bytes ∷ []) s
          ≡ Callbacks.leave_with H Q L other t =
        ap
          (λ u.
            if H.is_running s.thread
            then Callbacks.rethrow H Q L u.eptr u
            else Callbacks.leave H Q L s)
          (read_failed c p n bytes s prev h)
        ∙ ap (λ b. if b then Callbacks.leave_with H Q L other t else Callbacks.leave H Q L s)
            running in
      let both : Device.pointed H Q L t ≡ w.id ∷ p ∷ p ∷ [] =
        ap (λ o. Device.pointed H Q L (record t { rtransfer_curr = o; rtransfer_prev = o })) prev
        ∙ ap
            (λ o.
              Device.pointed H Q L
                (record t { wtransfer = o; rtransfer_curr = some p; rtransfer_prev = some p }))
            writer in
      subst (Left (s.deleted ++ (w.id ∷ p ∷ p ∷ []))) (sym round) (
        subst (λ is. Left (s.deleted ++ is) (Callbacks.leave_with H Q L other t)) both
          (leave_with-Left t opened))
