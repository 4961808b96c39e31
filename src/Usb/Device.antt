-- ===== src/Usb/Device.antt =====
-- The classes Transfer, RTransfer, WTransfer and Device of src/usb_async.h and src/usb_async.cpp,
-- but for the callbacks and the thread.
use libhdcp.Base.{
  ℕ, Bool, true, false, not, Result, ok, err, List, [], ◌∷◌, ◌++◌, Option, some, none, ErrorCode,
  Exception, transport_error, write_queue_full, write_while_closed, libusb_error, bad_alloc,
  null_pointer, ◌==◌, if◌then◌else◌,
}
use libhdcp.Base.State.{M, pure, throw, modify, when, gets, ◌>>=◌, ◌>>◌}
use libhdcp.Interfaces.{Thread}
use libhdcp.Packet.Parse.{Packet}
use libhdcp.Queues.{PacketQueue}
use libhdcp.Usb.Libusb.{Libusb, Cancel, requested, not_found, refused}

-- WTransfer; `id` names its libusb_transfer, as the number of an RTransfer does.
pub record WTransfer : Type 0 where
  pub id : ℕ
  pub packet : Packet
  pub in_progress : Bool

-- Takes a number out of a list.
abbrev pub without : ℕ → List ℕ → List ℕ
without i [] = []
without i (j ∷ js) = if i == j then js else j ∷ without i js

module _ (H : Thread) (Q : PacketQueue) (L : Libusb) where
  -- A pointer is null if it is `none`. `in_flight` are the transfers that were submitted and have
  -- not ended; `deleted` records the transfers that `delete` was called on; `looping` tells whether
  -- the thread is in the loop of `run`.
  pub record Device : Type 0 where
    pub thread : H.Handle
    pub context : L.Context
    pub device_handle : Option L.Handle
    pub rtransfer_curr : Option ℕ
    pub rtransfer_prev : Option ℕ
    pub wtransfer : Option WTransfer
    pub opened : Bool
    pub itfc_nb : ℕ
    pub vendor_id : ℕ
    pub product_id : ℕ
    pub eptr : Option Exception
    pub errc : ErrorCode
    pub write_queue : Q.Queue
    pub read_queue : Q.Queue
    pub looping : Bool
    pub in_flight : List ℕ
    pub deleted : List ℕ

  -- `if (ret < 0) throw libusb_error(ret)`
  abbrev pub check : Option ℕ → M Device (Unit {0})
  check none = pure tt
  check (some n) = throw (libusb_error n)

  -- A call on the context.
  abbrev pub on_context : {A : Type 0} → (L.Context → A × L.Context) → M Device A
  on_context f s = (ok (f s.context).0, record s { context = (f s.context).1 })

  -- A pointer is followed.
  abbrev pub follow : {A : Type 0} → Option A → M Device A
  follow none = throw null_pointer
  follow (some a) = pure a

  -- `Transfer::submit`
  unfoldable pub submit : ℕ → M Device (Unit {0})
  submit i = do
    ret ← on_context (L.submit_transfer i)
    check ret
    modify (λ s. record s { in_flight = s.in_flight ++ (i ∷ []) })

  -- `WTransfer::submit`
  unfoldable pub submit_write : M Device (Unit {0})
  unfolding submit
  submit_write = do
    w ← gets (λ s. s.wtransfer) >>= follow
    submit w.id
    modify (λ s. record s { wtransfer = some (record w { in_progress = true }) })

  -- `Transfer::cancel`; its wait ends when the callback has told that the transfer is cancelled.
  unfoldable pub cancelled_by : ℕ → Cancel → M Device (Unit {0})
  cancelled_by i requested = modify (λ s. record s { in_flight = without i s.in_flight })
  cancelled_by i not_found = pure tt
  cancelled_by i (refused n) = throw (libusb_error n)

  unfoldable pub cancel : ℕ → M Device (Unit {0})
  unfolding cancelled_by
  cancel i = on_context (L.cancel_transfer i) >>= cancelled_by i

  -- The constructors of Transfer and RTransfer.
  unfoldable pub new_transfer : M Device ℕ
  new_transfer = on_context L.alloc_transfer >>= allocated
    where
      allocated : Option ℕ → M Device ℕ
      allocated none = throw bad_alloc
      allocated (some i) = pure i

  unfoldable pub new_rtransfer : L.Handle → M Device ℕ
  unfolding new_transfer
  new_rtransfer h = do
    i ← new_transfer
    memory ← on_context (L.dev_mem_alloc h)
    when (not memory) (throw bad_alloc)
    pure i

  unfoldable pub no_device : Option L.Handle → M Device L.Handle
  no_device none = throw (libusb_error L.error_no_device)
  no_device (some h) = pure h

  -- The part of `open` that asks libusb for the interface.
  unfoldable pub claim_device : L.Handle → M Device (Unit {0})
  claim_device h = do
    on_context (L.set_auto_detach h) >>= check
    itfc ← gets (λ s. s.itfc_nb)
    on_context (L.claim_interface h itfc) >>= check

  -- The part of `open` that makes the transfers. What `fill_transfer` stores is not kept.
  unfoldable pub make_transfers : L.Handle → M Device (Unit {0})
  unfolding new_transfer new_rtransfer
  make_transfers h = do
    w ← new_transfer
    modify (λ s. record s {
      wtransfer = some (record { id = w; packet = record { data_ = [] }; in_progress = false });
    })
    c ← new_rtransfer h
    modify (λ s. record s { rtransfer_curr = some c })
    p ← new_rtransfer h
    modify (λ s. record s { rtransfer_prev = some p; opened = true })

  -- `open`, where the transport is not open.
  unfoldable pub open_device : M Device (Unit {0})
  unfolding no_device claim_device make_transfers
  open_device = do
    vendor ← gets (λ s. s.vendor_id)
    product ← gets (λ s. s.product_id)
    found ← on_context (L.open_device vendor product)
    modify (λ s. record s { device_handle = found })
    h ← no_device found
    claim_device h
    make_transfers h

  unfoldable pub open_transport : M Device (Unit {0})
  unfolding open_device
  open_transport s = if s.opened then (ok tt, s) else open_device s

  -- The transfers that three `delete`s name.
  abbrev pub pointed : Device → List ℕ
  pointed s = write_id s.wtransfer ++ (id_of s.rtransfer_curr ++ id_of s.rtransfer_prev)
    where
      id_of : Option ℕ → List ℕ
      id_of none = []
      id_of (some i) = i ∷ []

      write_id : Option WTransfer → List ℕ
      write_id none = []
      write_id (some w) = w.id ∷ []

  -- `close`: an interface that cannot be released is reported once the device is closed.
  unfoldable pub close_device : M Device (Unit {0})
  close_device = do
    modify (λ s. record s {
      deleted = s.deleted ++ pointed s;
      wtransfer = none;
      rtransfer_curr = none;
      rtransfer_prev = none;
    })
    h ← gets (λ s. s.device_handle) >>= follow
    itfc ← gets (λ s. s.itfc_nb)
    ret ← on_context (L.release_interface h itfc)
    modify (λ s. record s {
      context = L.close_device h s.context;
      device_handle = none;
      opened = false;
    })
    check ret

  unfoldable pub close : M Device (Unit {0})
  unfolding close_device
  close s = if s.opened then close_device s else (ok tt, s)

  unfoldable pub enqueue_write : Packet → M Device (Unit {0})
  enqueue_write p s =
      let r = Q.try_enqueue p s.write_queue in
      if r.0
      then (ok tt, record s { write_queue = r.1 })
      else (err (transport_error write_queue_full), record s { write_queue = r.1 })

  -- The packet is put into the transfer, which is submitted.
  unfoldable pub send : Packet → WTransfer → M Device (Unit {0})
  unfolding submit_write
  send p w = do modify (λ s. record s { wtransfer = some (record w { packet = p }) }); submit_write

  unfoldable pub write : Packet → M Device (Unit {0})
  unfolding enqueue_write send
  write p s =
      if s.opened
      then (do
        w ← gets (λ s. s.wtransfer) >>= follow
        if w.in_progress then enqueue_write p else send p w)
          s
      else (err (transport_error write_while_closed), s)

  -- `if (transfer) transfer->cancel()`
  abbrev pub cancel_if : Option ℕ → M Device (Unit {0})
  cancel_if none = pure tt
  cancel_if (some i) = cancel i

  abbrev pub write_id : Option WTransfer → Option ℕ
  write_id none = none
  write_id (some w) = some w.id

  unfoldable pub cancel_transfers : M Device (Unit {0})
  unfolding cancel
  cancel_transfers = do
    gets (λ s. write_id s.wtransfer) >>= cancel_if
    gets (λ s. s.rtransfer_curr) >>= cancel_if
    gets (λ s. s.rtransfer_prev) >>= cancel_if

  -- `catch (libusb_error& e)`, which is logged.
  abbrev pub log_libusb : Result (Unit {0}) × Device → Result (Unit {0}) × Device
  log_libusb (err (libusb_error n), s) = (ok tt, s)
  log_libusb r = r

  unfoldable pub stop : M Device (Unit {0})
  unfolding cancel_transfers close
  stop s =
      if H.is_running s.thread
      then log_libusb
          ((do cancel_transfers; modify (λ s. record s { thread = H.stop s.thread }); close) s)
      else (ok tt, s)
