-- ===== src/Usb/Reading.antt =====
-- The two read transfers of src/usb_async.cpp: one is read into while the other's bytes are taken.
use libhdcp.Base.{
  ℕ, ◌≡◌, refl, sym, ap, ◌∙◌, ◌≢◌, arith, Result, ok, err, List, [], ◌∷◌, some, none,
}
use mathlib.Core.Path.{subst}
use libhdcp.Base.State.{modify, lift, ◌>>=◌, >>-ok}
use libhdcp.Interfaces.{Thread}
use libhdcp.Packet.Parse.{Packet, from_view}
use libhdcp.Queues.{PacketQueue}
use libhdcp.Usb.Libusb.{Libusb, completed, timed_out}
use libhdcp.Usb.Device.{without}
use libhdcp.Usb.Flight.{times, times-append, times-without, times-without_other}
use libhdcp.Usb.Callbacks.{on_read}
use libhdcp.Usb.Callbacks
use libhdcp.Usb.Exchange

module _ (H : Thread) (Q : PacketQueue) (L : Libusb) where
  abbrev State : Type 0
  State = Callbacks.Dev H Q L

  -- The packet made of the bytes is offered to the queue, or the exception is kept.
  abbrev pub taken : Result Packet → State → State
  taken (ok q) s = record s { read_queue = (Q.try_enqueue q s.read_queue).1 }
  taken (err e) s = record s { eptr = some e }

  take_bytes_lem :
      (bytes : List ℕ) (s : State)
      → Callbacks.keep H Q L (Callbacks.take_bytes H Q L bytes s) ≡ taken (from_view bytes) s
  unfolding Callbacks.take_bytes Callbacks.keep
  take_bytes_lem bytes s = kept (from_view bytes)
    where
      kept :
          (r : Result Packet)
          → Callbacks.keep H Q L (
              (lift r >>= λ p.
              modify (λ t. record t { read_queue = (Q.try_enqueue p t.read_queue).1 }))
                s)
            ≡ taken r s
      kept (ok q) = refl
      kept (err e) = refl

  -- Of the two read transfers, `c` is in flight, once, and `p` is not.
  pub record ReadsInto (c p : ℕ) (s : State) : Type 0 where
    pub curr : s.rtransfer_curr ≡ some c
    pub prev : s.rtransfer_prev ≡ some p
    pub reading : times c s.in_flight ≡ 1
    pub at_rest : times p s.in_flight ≡ 0

  -- The transfer `c` has ended.
  abbrev pub ended : ℕ → State → State
  ended c s = record s { in_flight = without c s.in_flight }

  exchanged-ReadsInto :
      (c p : ℕ) (s : State)
      → ReadsInto c p s
      → ReadsInto p c (Exchange.exchanged H Q L p (ended c s))
  exchanged-ReadsInto c p s r =
      let left = without c s.in_flight in
      let apart : c ≢ p =
        λ e. absurd (omega (arith, r.reading, r.at_rest, ap (λ i. times i s.in_flight) e)) in
      record {
        curr = r.prev;
        prev = r.curr;
        reading =
            times-append p left (p ∷ [])
            ∙ ground (arith, times-without_other c p s.in_flight apart, r.at_rest);
        at_rest =
            times-append c left (p ∷ [])
            ∙ ground (arith, times-without c s.in_flight, r.reading, apart);
      }

  taken-ReadsInto :
      (c p : ℕ) (x : Result Packet) (s : State) → ReadsInto c p s → ReadsInto c p (taken x s)
  taken-ReadsInto c p (ok q) s r = record {
    curr = r.curr;
    prev = r.prev;
    reading = r.reading;
    at_rest = r.at_rest;
  }
  taken-ReadsInto c p (err e) s r = record {
    curr = r.curr;
    prev = r.prev;
    reading = r.reading;
    at_rest = r.at_rest;
  }

  read_completed :
      (p : ℕ) (bytes : List ℕ) (s : State)
      → Callbacks.exchange H Q L s ≡ (ok tt, Exchange.exchanged H Q L p s)
      → Callbacks.read_cb H Q L completed bytes s
        ≡ taken (from_view bytes) (Exchange.exchanged H Q L p s)
  unfolding Callbacks.read_cb Callbacks.read_ended
  read_completed p bytes s e =
      ap (Callbacks.keep H Q L) (
        >>-ok (Callbacks.exchange H Q L) (Callbacks.take_bytes H Q L bytes) s
          (Exchange.exchanged H Q L p s) e)
      ∙ take_bytes_lem bytes (Exchange.exchanged H Q L p s)

  read_timed_out :
      (p : ℕ) (bytes : List ℕ) (s : State)
      → Callbacks.exchange H Q L s ≡ (ok tt, Exchange.exchanged H Q L p s)
      → Callbacks.read_cb H Q L timed_out bytes s ≡ Exchange.exchanged H Q L p s
  unfolding Callbacks.read_cb Callbacks.read_ended Callbacks.keep
  read_timed_out p bytes s e = ap (Callbacks.keep H Q L) e

  -- Where the transfer `c` is in flight and the other is not, and libusb takes the other one when `c`
  -- ends with the bytes `bytes`: the two change roles, so that nothing is written over the bytes
  -- while a packet is made of them; the packet is offered to the queue, or the exception is kept for
  -- the thread. A read that has timed out changes the roles and nothing else.
  pub read_lem :
      (c p : ℕ) (bytes : List ℕ) (s : State)
      → ReadsInto c p s
      → (L.submit_transfer p s.context).0 ≡ none
      → let done = Callbacks.call_back H Q L (on_read c completed bytes) s in
        let late = Callbacks.call_back H Q L (on_read c timed_out bytes) s in
        ReadsInto p c done
        × ReadsInto p c late
        × (done ≡ taken (from_view bytes) late)
        × (late.read_queue ≡ s.read_queue)
        × (late.eptr ≡ s.eptr)
  unfolding Callbacks.call_back
  read_lem c p bytes s r h =
      let e = Exchange.exchange_ok H Q L p (ended c s) r.prev h in
      let later = exchanged-ReadsInto c p s r in
      let done = read_completed p bytes (ended c s) e in
      let late = read_timed_out p bytes (ended c s) e in
      (
        subst (ReadsInto p c) (sym done)
            (taken-ReadsInto p c (from_view bytes) (Exchange.exchanged H Q L p (ended c s)) later),
        subst (ReadsInto p c) (sym late) later,
        done ∙ ap (taken (from_view bytes)) (sym late),
        ap (λ t. t.read_queue) late,
        ap (λ t. t.eptr) late,
      )
