-- ===== src/Usb/Sending.antt =====
-- The write transfer of src/usb_async.cpp: it is in flight at most once, and not while it is on hold.
use libhdcp.Base.{
  ℕ, ◌≡◌, ◌≢◌, ◌≤◌, sym, ap, Result, ok, err, List, [], ◌∷◌, ◌++◌, Option, some, none, arith,
  Option-cases, inl, inr, if◌then◌else◌, null_pointer,
}
use mathlib.Core.Path.{subst}
use libhdcp.Base.State.{
  modify, lift, gets, ◌>>=◌, ◌>>◌, >>=-err, Preserves, Preserves-seq, Preserves-bind,
}
use libhdcp.Interfaces.{Thread}
use libhdcp.Packet.Parse.{from_view}
use libhdcp.Queues.{PacketQueue}
use libhdcp.Usb.Libusb.{Libusb, Status, completed, timed_out}
use libhdcp.Usb.Device.{WTransfer, without}
use libhdcp.Usb.Device
use libhdcp.Usb.Callbacks.{Callback, on_read, on_write}
use libhdcp.Usb.Callbacks
use libhdcp.Usb.Exchange
use libhdcp.Usb.Flight.{times, times-append, times-without_le}

-- At most once in flight, and not at all on hold.
abbrev pub Held : Option WTransfer → List ℕ → Type 0
Held none fs = Unit {0}
Held (some w) fs = times w.id fs ≤ (if w.in_progress then 1 else 0)

abbrev pub Apart : Option WTransfer → Option ℕ → Type 0
Apart (some w) (some i) = w.id ≢ i
Apart _ _ = Unit {0}

pub Held-append :
    (o : Option WTransfer) (fs : List ℕ) (i : ℕ)
    → Held o fs
    → Apart o (some i)
    → Held o (fs ++ (i ∷ []))
Held-append none fs i h a = tt
Held-append (some w) fs i h a = ground (arith, times-append w.id fs (i ∷ []))

pub Held-without : (o : Option WTransfer) (i : ℕ) (fs : List ℕ) → Held o fs → Held o (without i fs)
Held-without none i fs h = tt
Held-without (some w) i fs h = ground (arith, times-without_le i w.id fs)

module _ (H : Thread) (Q : PacketQueue) (L : Libusb) where
  abbrev State : Type 0
  State = Callbacks.Dev H Q L

  -- The transfers for reads are others.
  pub record IsSending (s : State) : Type 0 where
    pub held : Held s.wtransfer s.in_flight
    pub apart_curr : Apart s.wtransfer s.rtransfer_curr
    pub apart_prev : Apart s.wtransfer s.rtransfer_prev

  exchange_null :
      (s : State)
      → s.rtransfer_prev ≡ none
      → Callbacks.exchange H Q L s ≡ (err null_pointer, Exchange.turned H Q L s)
  unfolding Callbacks.exchange
  exchange_null s prev =
      let t = Exchange.turned H Q L s in
      >>=-err (gets (λ u. u.rtransfer_curr) >>= Device.follow H Q L)
        (λ c. Device.submit H Q L c >> modify (λ u. record u { rtransfer_prev = s.rtransfer_curr }))
        t t null_pointer (ap (λ o. Device.follow H Q L o t) prev)

  exchange_keeps : Preserves IsSending (Callbacks.exchange H Q L)
  exchange_keeps s h = elim (Option-cases s.rtransfer_prev) [
    | inl missing ↦
        subst IsSending (sym (ap (λ r. r.1) (exchange_null s missing)))
          (record { held = h.held; apart_curr = h.apart_prev; apart_prev = h.apart_prev })
    | inr (p, prev) ↦ elim (Option-cases (L.submit_transfer p s.context).0) [
      | inl taken ↦
          subst IsSending (sym (ap (λ r. r.1) (Exchange.exchange_ok H Q L p s prev taken)))
            (record {
              held =
                  Held-append s.wtransfer s.in_flight p h.held
                    (subst (Apart s.wtransfer) prev h.apart_prev);
              apart_curr = h.apart_prev;
              apart_prev = h.apart_curr;
            })
      | inr (n, refused) ↦
          subst IsSending (sym (ap (λ r. r.1) (Exchange.exchange_err H Q L p n s prev refused)))
            (record { held = h.held; apart_curr = h.apart_prev; apart_prev = h.apart_prev })
    ]
  ]

  take_bytes_keeps : (bytes : List ℕ) → Preserves IsSending (Callbacks.take_bytes H Q L bytes)
  unfolding Callbacks.take_bytes
  take_bytes_keeps bytes =
      Preserves-bind IsSending (lift (from_view bytes))
        (λ p. modify (λ s. record s { read_queue = (Q.try_enqueue p s.read_queue).1 })) (λ s h. h)
        (λ p s h. record { held = h.held; apart_curr = h.apart_curr; apart_prev = h.apart_prev })

  pub keep_keeps :
      (r : Result (Unit {0}) × State) → IsSending r.1 → IsSending (Callbacks.keep H Q L r)
  unfolding Callbacks.keep
  keep_keeps (ok u, s) h = h
  keep_keeps (err e, s) h = record {
    held = h.held;
    apart_curr = h.apart_curr;
    apart_prev = h.apart_prev;
  }

  read_ended_keeps :
      (st : Status) (bytes : List ℕ) → Preserves IsSending (Callbacks.read_ended H Q L st bytes)
  unfolding Callbacks.read_ended
  read_ended_keeps completed bytes s h =
      Preserves-seq IsSending (Callbacks.exchange H Q L) (Callbacks.take_bytes H Q L bytes)
        exchange_keeps (take_bytes_keeps bytes) s h
  read_ended_keeps timed_out bytes s h = exchange_keeps s h
  read_ended_keeps _ bytes s h = h

  pub read_keeps :
      (i : ℕ) (st : Status) (bytes : List ℕ) (s : State)
      → IsSending s
      → IsSending (Callbacks.call_back H Q L (on_read i st bytes) s)
  unfolding Callbacks.call_back Callbacks.read_cb
  read_keeps i st bytes s h =
      let t = record s { in_flight = without i s.in_flight } in
      keep_keeps (Callbacks.read_ended H Q L st bytes t) (
        read_ended_keeps st bytes t (record {
          held = Held-without s.wtransfer i s.in_flight h.held;
          apart_curr = h.apart_curr;
          apart_prev = h.apart_prev;
        }))
