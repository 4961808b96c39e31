-- ===== src/Interfaces.antt =====
-- What the two protocol machines use and do not implement: the classes of the submodule libcommon
-- (common/thread.h, common/timeout_queue.h, common/event_mngr.h), and the abstract class Transport
-- of src/transport.h. A record of operations, with the behaviour that the callers rely on.
use libhdcp.Base.{
  ℕ, ◌+◌, ◌≡◌, ◌≢◌, ◌≤◌, ◌<◌, All, Bool, true, false, List, [], ◌∷◌, ◌++◌, Option, none, some,
  Result, ok, ErrorCode,
}
use libhdcp.Packet.Parse.{Packet}

-- common::Thread, as far as the library asks: `start(true)` returns when the thread runs, `stop`
-- and `join` when it has ended.
pub record Thread : Type 1 where
  pub Handle : Type 0
  pub is_running : Handle → Bool
  pub start : Handle → Handle
  pub stop : Handle → Handle
  pub is_running-start : (h : Handle) → is_running (start h) ≡ true
  pub is_running-stop : (h : Handle) → is_running (stop h) ≡ false

-- What is pending under an identifier: the callback, the time at which it is due, and the interval
-- of a repeating one.
pub record Entry (C : Type 0) : Type 0 where
  pub callback : C
  pub due : ℕ
  pub interval : Option ℕ

-- What is called was pending, and due.
abbrev pub WasDue : {C : Type 0} → ℕ → (ℕ → Option (Entry C)) → ℕ × C → Type 0
WasDue {C} now pending call =
    (e : Entry C) × (pending call.0 ≡ some e) × (e.callback ≡ call.1) × (e.due ≤ now)

-- common::TimeoutQueue. A callback is named by a value of `C`. `expire now` takes out what is due
-- and puts the repeating entries back, as `run_once` does before it makes the calls.
pub record TimeoutQueue (C : Type 0) : Type 1 where
  pub Queue : Type 0
  pub add : Queue → ℕ → ℕ → C → Queue × ℕ
  pub add_repeating : Queue → ℕ → ℕ → C → Queue × ℕ
  pub erase : Queue → ℕ → Queue
  pub clear : Queue → Queue
  pub expire : ℕ → Queue → List (ℕ × C) × Queue
  pub pending : Queue → ℕ → Option (Entry C)
  pub pending-add :
      (q : Queue) (now delay : ℕ) (c : C)
      → pending (add q now delay c).0 (add q now delay c).1
        ≡ some (record { callback = c; due = now + delay; interval = none })
  pub pending-add_other :
      (q : Queue) (now delay : ℕ) (c : C) (i : ℕ)
      → i ≢ (add q now delay c).1
      → pending (add q now delay c).0 i ≡ pending q i
  pub add_fresh : (q : Queue) (now delay : ℕ) (c : C) → pending q (add q now delay c).1 ≡ none
  pub pending-add_repeating :
      (q : Queue) (now delay : ℕ) (c : C)
      → pending (add_repeating q now delay c).0 (add_repeating q now delay c).1
        ≡ some (record { callback = c; due = now + delay; interval = some delay })
  pub pending-add_repeating_other :
      (q : Queue) (now delay : ℕ) (c : C) (i : ℕ)
      → i ≢ (add_repeating q now delay c).1
      → pending (add_repeating q now delay c).0 i ≡ pending q i
  pub add_repeating_fresh :
      (q : Queue) (now delay : ℕ) (c : C) → pending q (add_repeating q now delay c).1 ≡ none
  pub pending-erase : (q : Queue) (i : ℕ) → pending (erase q i) i ≡ none
  pub pending-erase_other : (q : Queue) (i j : ℕ) → j ≢ i → pending (erase q i) j ≡ pending q j
  pub pending-clear : (q : Queue) (i : ℕ) → pending (clear q) i ≡ none
  pub expire_due :
      (now : ℕ) (q : Queue) (i : ℕ) (e : Entry C)
      → pending q i ≡ some e
      → e.due ≤ now
      → (before later : List (ℕ × C)) × ((expire now q).0 ≡ before ++ ((i, e.callback) ∷ later))
  pub expire_called : (now : ℕ) (q : Queue) → All (WasDue now (pending q)) (expire now q).0
  pub pending-expire_later :
      (now : ℕ) (q : Queue) (i : ℕ) (e : Entry C)
      → pending q i ≡ some e
      → now < e.due
      → pending (expire now q).1 i ≡ some e
  pub pending-expire_none :
      (now : ℕ) (q : Queue) (i : ℕ) → pending q i ≡ none → pending (expire now q).1 i ≡ none

-- common::EventMngr: a set of events. `erase` tells whether the event was there.
pub record EventMngr (E : Type 0) : Type 1 where
  pub Events : Type 0
  pub notify : E → Events → Events
  pub erase : E → Events → Bool × Events
  pub clear : Events → Events
  pub contains : E → Events → Bool
  pub contains-notify : (e : E) (s : Events) → contains e (notify e s) ≡ true
  pub contains-notify_other :
      (e f : E) (s : Events) → f ≢ e → contains f (notify e s) ≡ contains f s
  pub erase_found : (e : E) (s : Events) → (erase e s).0 ≡ contains e s
  pub contains-erase : (e : E) (s : Events) → contains e (erase e s).1 ≡ false
  pub contains-erase_other :
      (e f : E) (s : Events) → f ≢ e → contains f (erase e s).1 ≡ contains f s
  pub contains-clear : (e : E) (s : Events) → contains e (clear s) ≡ false

-- The class Transport of src/transport.h: its virtual methods, and those on its two queues.
-- A method that may throw returns a result.
pub record Transport : Type 1 where
  pub Link : Type 0
  pub write : Packet → Link → Result (Unit {0}) × Link
  pub read : Link → Option Packet × Link
  pub clear_queues : Link → Link
  pub start : Link → Result (Unit {0}) × Link
  pub stop : Link → Result (Unit {0}) × Link
  pub is_open : Link → Bool
  pub error_code : Link → ErrorCode

-- A transport that takes every packet while it is open: `sent` is what it was given, oldest first.
pub record Takes (x : Transport) : Type 1 where
  pub sent : x.Link → List Packet
  pub write_ok : (p : Packet) (l : x.Link) → x.is_open l ≡ true → (x.write p l).0 ≡ ok tt
  pub sent-write :
      (p : Packet) (l : x.Link) → x.is_open l ≡ true → sent (x.write p l).1 ≡ sent l ++ (p ∷ [])
  pub is_open-write : (p : Packet) (l : x.Link) → x.is_open (x.write p l).1 ≡ x.is_open l
