-- ===== src/Examples/Instances.antt =====
-- Simple implementations of the interfaces, at which the theorems are applied.
use libhdcp.Base.{
  Bool-cases, inl, inr, sym, ap, ◌∙◌, ◌≤◌, ◌<◌, All, All-append, append_assoc, ℕ, zero, suc, ◌+◌,
  ◌≡◌, ◌≢◌, refl, List, [], ◌∷◌, ◌++◌, Bool, true, false, arith, ltb, leb, ◌==◌, Option, none, some,
  Result, ok, err, transport_error, write_while_closed, if◌then◌else◌, no_error,
}
use mathlib.Core.Logic.{ite, if_pos, if_neg}
use libhdcp.Interfaces.{WasDue, Thread, TimeoutQueue, Entry, EventMngr, Transport, Takes}
use libhdcp.Packet.Parse.{Packet}

abbrev pub flag_thread : Thread
flag_thread = record {
  Handle = Bool;
  is_running = λ h. h;
  start = λ _. true;
  stop = λ _. false;
  is_running-start = λ _. refl;
  is_running-stop = λ _. refl;
}

-- A table of entries; an identifier from `next` on is not in use.
pub record Table (C : Type 0) : Type 0 where
  pub next : ℕ
  pub entries : ℕ → Option (Entry C)

module _ {C : Type 0} where
  abbrev pub entry_of : Table C → ℕ → Option (Entry C)
  entry_of t i = if ltb i t.next then t.entries i else none

  abbrev pub put : (ℕ → Option (Entry C)) → ℕ → Option (Entry C) → ℕ → Option (Entry C)
  put f i e j = if j == i then e else f j

  abbrev pub table_add : Table C → Entry C → Table C × ℕ
  table_add t e = (record { next = suc t.next; entries = put t.entries t.next (some e) }, t.next)

  abbrev pub once : ℕ → ℕ → C → Entry C
  once now delay c = record { callback = c; due = now + delay; interval = none }

  abbrev pub repeating : ℕ → ℕ → C → Entry C
  repeating now delay c = record { callback = c; due = now + delay; interval = some delay }

  -- What becomes of an entry whose time has come.
  abbrev pub again : ℕ → Entry C → Option (Entry C)
  again now e = elim e.interval [ none ↦ none | some n ↦ some (record e { due = now + n }) ]

  -- An entry when it is `now`.
  abbrev pub aged : ℕ → Option (Entry C) → Option (Entry C)
  aged now none = none
  aged now (some e) = if leb e.due now then again now e else some e

  abbrev pub call_of : ℕ → ℕ → Option (Entry C) → List (ℕ × C)
  call_of now i none = []
  call_of now i (some e) = if leb e.due now then (i, e.callback) ∷ [] else []

  -- The calls of the entries below `n` that are due.
  abbrev pub due_calls : ℕ → ℕ → Table C → List (ℕ × C)
  due_calls now zero t = []
  due_calls now (suc n) t = due_calls now n t ++ call_of now n (entry_of t n)

  abbrev pub table_expire : ℕ → Table C → List (ℕ × C) × Table C
  table_expire now t = (due_calls now t.next t, record t { entries = λ i. aged now (t.entries i) })

  pub entry_of-add :
      (t : Table C) (e : Entry C) → entry_of (table_add t e).0 (table_add t e).1 ≡ some e
  entry_of-add t e = ground arith

  pub entry_of-add_other :
      (t : Table C) (e : Entry C) (i : ℕ)
      → i ≢ (table_add t e).1
      → entry_of (table_add t e).0 i ≡ entry_of t i
  entry_of-add_other t e i h = ground arith

  pub add_fresh : (t : Table C) (e : Entry C) → entry_of t (table_add t e).1 ≡ none
  add_fresh t e = ground arith

  pub entry_of-erase :
      (t : Table C) (i : ℕ) → entry_of (record t { entries = put t.entries i none }) i ≡ none
  entry_of-erase t i = ground arith

  pub entry_of-erase_other :
      (t : Table C) (i j : ℕ)
      → j ≢ i
      → entry_of (record t { entries = put t.entries i none }) j ≡ entry_of t j
  entry_of-erase_other t i j h = ground arith

  pub entry_of-clear : (t : Table C) (i : ℕ) → entry_of (record t { entries = λ _. none }) i ≡ none
  entry_of-clear t i = ground arith

  due_calls_due :
      (now n : ℕ) (t : Table C) (i : ℕ) (e : Entry C)
      → entry_of t i ≡ some e
      → i < n
      → e.due ≤ now
      → (before later : List (ℕ × C)) × (due_calls now n t ≡ before ++ ((i, e.callback) ∷ later))
  due_calls_due now zero t i e h less due = absurd (omega arith)
  due_calls_due now (suc n) t i e h less due = elim (Bool-cases (i == n)) [
    | inl same ↦
        let here : i ≡ n = ground arith in (due_calls now n t, [], rw (sym here, h) (ground arith))
    | inr other ↦
        let (before, later, split) = due_calls_due now n t i e h (ground arith) due in
        (
          before,
          later ++ call_of now n (entry_of t n),
          ap (λ cs. cs ++ call_of now n (entry_of t n)) split
              ∙ append_assoc before ((i, e.callback) ∷ later) (call_of now n (entry_of t n)),
        )
  ]

  pub expire_due_lem :
      (now : ℕ) (t : Table C) (i : ℕ) (e : Entry C)
      → entry_of t i ≡ some e
      → e.due ≤ now
      → (before later : List (ℕ × C)) × ((table_expire now t).0
          ≡ before ++ ((i, e.callback) ∷ later))
  expire_due_lem now t i e h due = due_calls_due now t.next t i e h (ground arith) due

  call_of-WasDue :
      (now n : ℕ) (t : Table C) (o : Option (Entry C))
      → entry_of t n ≡ o
      → All (WasDue now (entry_of t)) (call_of now n o)
  call_of-WasDue now n t none h = tt
  call_of-WasDue now n t (some e) h = elim (Bool-cases (leb e.due now)) [
    | inl due ↦ rw due ((e, h, refl, ground arith), tt)
    | inr later ↦ rw later tt
  ]

  due_calls-WasDue : (now n : ℕ) (t : Table C) → All (WasDue now (entry_of t)) (due_calls now n t)
  due_calls-WasDue now zero t = tt
  due_calls-WasDue now (suc n) t =
      All-append (WasDue now (entry_of t)) (due_calls now n t) (call_of now n (entry_of t n))
        (due_calls-WasDue now n t) (call_of-WasDue now n t (entry_of t n) refl)

  pub expire-WasDue : (now : ℕ) (t : Table C) → All (WasDue now (entry_of t)) (table_expire now t).0
  expire-WasDue now t = due_calls-WasDue now t.next t

  pub entry_of-expire_later :
      (now : ℕ) (t : Table C) (i : ℕ) (e : Entry C)
      → entry_of t i ≡ some e
      → now < e.due
      → entry_of (table_expire now t).1 i ≡ some e
  entry_of-expire_later now t i e h later = elim (Bool-cases (ltb i t.next)) [
    | inr unused ↦ cc
    | inl used ↦ let found : t.entries i ≡ some e = rw used at h in rw (used, found) (ground arith)
  ]

  pub entry_of-expire_none :
      (now : ℕ) (t : Table C) (i : ℕ)
      → entry_of t i ≡ none
      → entry_of (table_expire now t).1 i ≡ none
  entry_of-expire_none now t i h = elim (Bool-cases (ltb i t.next)) [
    | inr unused ↦ rw unused refl
    | inl used ↦ let found : t.entries i ≡ none = rw used at h in rw (used, found) refl
  ]

abbrev pub table_queue : (C : Type 0) → TimeoutQueue C
table_queue C = record {
  Queue = Table C;
  add = λ t now delay c. table_add t (once now delay c);
  add_repeating = λ t now delay c. table_add t (repeating now delay c);
  erase = λ t i. record t { entries = put t.entries i none };
  clear = λ t. record t { entries = λ _. none };
  expire = table_expire;
  pending = entry_of;
  pending-add = λ t now delay c. entry_of-add t (once now delay c);
  pending-add_other = λ t now delay c i h. entry_of-add_other t (once now delay c) i h;
  add_fresh = λ t now delay c. add_fresh t (once now delay c);
  pending-add_repeating = λ t now delay c. entry_of-add t (repeating now delay c);
  pending-add_repeating_other =
      λ t now delay c i h. entry_of-add_other t (repeating now delay c) i h;
  add_repeating_fresh = λ t now delay c. add_fresh t (repeating now delay c);
  pending-erase = entry_of-erase;
  pending-erase_other = entry_of-erase_other;
  pending-clear = entry_of-clear;
  expire_due = expire_due_lem;
  expire_called = expire-WasDue;
  pending-expire_later = entry_of-expire_later;
  pending-expire_none = entry_of-expire_none;
}

abbrev pub empty_table : {C : Type 0} → Table C
empty_table = record { next = 0; entries = λ _. none }

-- A set of events as its test.
module _ (E : Type 0) (same : Discrete E) where
  abbrev pub mark : E → Bool → (E → Bool) → E → Bool
  mark e b s f = ite (same f e) b (s f)

  pub mark_self : (e : E) (b : Bool) (s : E → Bool) → mark e b s e ≡ b
  mark_self e b s = if_pos (same e e) refl b (s e)

  pub mark_other : (e f : E) (b : Bool) (s : E → Bool) → f ≢ e → mark e b s f ≡ s f
  mark_other e f b s h = if_neg (same f e) h b (s f)

  abbrev pub event_set : EventMngr E
  event_set = record {
    Events = E → Bool;
    notify = λ e s. mark e true s;
    erase = λ e s. (s e, mark e false s);
    clear = λ s _. false;
    contains = λ e s. s e;
    contains-notify = λ e s. mark_self e true s;
    contains-notify_other = λ e f s h. mark_other e f true s h;
    erase_found = λ e s. refl;
    contains-erase = λ e s. mark_self e false s;
    contains-erase_other = λ e f s h. mark_other e f false s h;
    contains-clear = λ e s. refl;
  }

-- A link in memory: what was sent, and what is to be read.
pub record Pipe : Type 0 where
  pub opened : Bool
  pub outbox : List Packet
  pub inbox : List Packet

abbrev pub pipe_write : Packet → Pipe → Result (Unit {0}) × Pipe
pipe_write p l =
    if l.opened
    then (ok tt, record l { outbox = l.outbox ++ (p ∷ []) })
    else (err (transport_error write_while_closed), l)

abbrev pub pipe_read : Pipe → Option Packet × Pipe
pipe_read l = elim l.inbox [ [] ↦ (none, l) | p ∷ ps ↦ (some p, record l { inbox = ps }) ]

abbrev pub pipe : Transport
pipe = record {
  Link = Pipe;
  write = pipe_write;
  read = pipe_read;
  clear_queues = λ l. record l { outbox = []; inbox = [] };
  start = λ l. (ok tt, record l { opened = true });
  stop = λ l. (ok tt, record l { opened = false });
  is_open = λ l. l.opened;
  error_code = λ l. no_error;
}

pub pipe_write_ok : (p : Packet) (l : Pipe) → l.opened ≡ true → (pipe_write p l).0 ≡ ok tt
pipe_write_ok p l h = ground arith

pub outbox-pipe_write :
    (p : Packet) (l : Pipe) → l.opened ≡ true → (pipe_write p l).1.outbox ≡ l.outbox ++ (p ∷ [])
outbox-pipe_write p l h = ground arith

pub opened-pipe_write : (p : Packet) (l : Pipe) → (pipe_write p l).1.opened ≡ l.opened
opened-pipe_write p l = ground arith

abbrev pub pipe_takes : Takes pipe
pipe_takes = record {
  sent = λ l. l.outbox;
  write_ok = pipe_write_ok;
  sent-write = outbox-pipe_write;
  is_open-write = opened-pipe_write;
}
