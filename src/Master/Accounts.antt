-- ===== src/Master/Accounts.antt =====
-- Every command that a manager of src/master_request.cpp has accepted is pending, answered or
-- dropped: the calls of its methods, in any order.
use libhdcp.Base.{
  ℕ, ◌≡◌, refl, sym, ap, List, [], ◌∷◌, ◌++◌, Result, err, is_ok, Exception, arith, Bool-cases, inl,
  inr, if◌then◌else◌,
}
use mathlib.Core.List.{Perm}
use mathlib.Core.List.Perm
use mathlib.Core.Path.{subst, ap₂}
use libhdcp.Base.State.{
  M, modify, ◌>>=◌, ◌>>◌, Preserves, Preserves-bind, Preserves-seq, Preserves-when, after_call,
}
use libhdcp.Interfaces.{Thread, TimeoutQueue, Transport}
use libhdcp.Packet.Parse.{Packet}
use libhdcp.Packet.Make.{Identification, make_command, make_hip, make_keepalive}
use libhdcp.Timing.{ticks}
use libhdcp.Master.Requests.{Request, new_request, is_taken}
use libhdcp.Master.Manager.{Timer, Manager, max_retry}
use libhdcp.Master.Manager
use libhdcp.Master.Writing.{next_timer}
use libhdcp.Master.Ledger.{Ticket, ticket, tickets}

-- The methods that other classes and the queue call, with their arguments.
pub data Call : Type 0 where
  command : ℕ → List ℕ → ℕ → ℕ → Call
  acknowledged : Packet → Call
  cmd_timeout : ℕ → Call
  hip : Identification → ℕ → Call
  keepalive_started : ℕ → ℕ → Call
  keepalive_stopped ka_mngt_timeout ka_acknowledged dip_acknowledged started stopped : Call

module _ (H : Thread) (Q : TimeoutQueue Timer) (X : Transport) where
  abbrev Mgr : Type 0
  Mgr = Manager H Q X

  abbrev pub run : Call → M Mgr (Unit {0})
  run (command type content callback delay) = Manager.send_command H Q X type content callback delay
  run (acknowledged p) = Manager.ack_command H Q X p
  run (cmd_timeout i) = Manager.on_cmd_timeout H Q X i
  run (hip id delay) = Manager.send_hip H Q X id delay
  run (keepalive_started interval delay) = Manager.start_keepalive_management H Q X interval delay
  run keepalive_stopped = modify (Manager.stop_keepalive_management H Q X)
  run ka_mngt_timeout = Manager.on_ka_mngt_timeout H Q X
  run ka_acknowledged = modify (Manager.ack_keepalive H Q X)
  run dip_acknowledged = modify (Manager.ack_dip H Q X)
  run started = modify (Manager.start H Q X)
  run stopped = modify (Manager.stop H Q X)

  -- The command is accepted if `send_command` returns.
  abbrev pub accepted : Call → Mgr → List Ticket
  accepted (command type content callback delay) m =
      if is_ok (Manager.send_command H Q X type content callback delay m).0
      then record { timer = next_timer H Q X delay m; callback = callback } ∷ []
      else []
  accepted _ m = []

  -- A start clears what is pending.
  abbrev pub dropped : Call → Mgr → List Ticket
  dropped started m = if H.is_running m.thread then [] else tickets m.requests
  dropped _ m = []

  -- Pending, and then answered.
  abbrev pub account : Mgr → List Ticket
  account m = tickets m.requests ++ tickets m.answers

  -- Requests and answers are as they were.
  abbrev pub Same : Mgr → Mgr → Type 0
  Same m t = (t.requests ≡ m.requests) × (t.answers ≡ m.answers)

  pub Same-account : (m t : Mgr) → Same m t → Perm (account m) (account t)
  Same-account m t (rs, as_) =
      subst (Perm (account m)) (sym (ap₂ (λ r a. tickets r ++ tickets a) rs as_))
        (Perm.refl (account m))

  make_next-Same :
      (m : Mgr) (make : ℕ → Result Packet) → Preserves (Same m) (Manager.make_next H Q X make)
  unfolding Manager.make_next
  make_next-Same m make t h = h

  send_next-Same :
      (m : Mgr) (make : ℕ → Result Packet)
      → Preserves
          (Same m)
          (Manager.if_open H Q X (Manager.make_next H Q X make >>= Manager.write H Q X))
  send_next-Same m make t h =
      Preserves-when (Same m) (X.is_open t.transport)
        (Manager.make_next H Q X make >>= Manager.write H Q X)
        (Preserves-bind (Same m) (Manager.make_next H Q X make) (Manager.write H Q X)
          (make_next-Same m make) (λ p u k. k))
        t h

  pub send_hip-Same :
      (id : Identification) (delay : ℕ) (m : Mgr) → Same m (Manager.send_hip H Q X id delay m).1
  unfolding Manager.send_hip
  send_hip-Same id delay m =
      Preserves-seq (Same m)
        (Manager.if_open H Q X
          (Manager.make_next H Q X (λ n. make_hip n id) >>= Manager.write H Q X))
        (modify (λ t.
          let added = Q.add t.timeout_queue t.now (ticks delay) Manager.dip_timeout_cb in
          record t { timeout_queue = added.0; dip_id = added.1 }))
        (send_next-Same m (λ n. make_hip n id)) (λ t h. h) m (refl, refl)

  send_keepalive-Same : (m : Mgr) → Preserves (Same m) (Manager.send_keepalive H Q X)
  unfolding Manager.send_keepalive
  send_keepalive-Same m = send_next-Same m make_keepalive

  await_keepalive-Same :
      (m : Mgr) (old : List ℕ → List ℕ)
      → Preserves (Same m) (modify (Manager.await_keepalive H Q X old))
  unfolding Manager.await_keepalive
  await_keepalive-Same m old t h = h

  pub on_ka_mngt-Same : (m : Mgr) → Same m (Manager.on_ka_mngt_timeout H Q X m).1
  unfolding Manager.on_ka_mngt_timeout
  on_ka_mngt-Same m =
      Preserves-seq (Same m) (Manager.send_keepalive H Q X)
        (modify (Manager.await_keepalive H Q X (λ ids. ids))) (send_keepalive-Same m)
        (await_keepalive-Same m (λ ids. ids)) m (refl, refl)

  pub start_keepalive-Same :
      (interval delay : ℕ) (m : Mgr)
      → Same m (Manager.start_keepalive_management H Q X interval delay m).1
  unfolding Manager.start_keepalive_management
  start_keepalive-Same interval delay m =
      let set = λ (t : Mgr). record t { timeout_keepalive = ticks delay } in
      let wait = modify (Manager.await_keepalive H Q X (λ ids. [])) in
      Preserves-seq (Same m) (Manager.send_keepalive H Q X) (modify set >> wait)
        (send_keepalive-Same m)
        (Preserves-seq (Same m) (modify set) wait (λ t h. h) (await_keepalive-Same m (λ ids. []))) _
        (refl, refl)

  -- What a call leaves that inserts a request for `k`, if it returns and if it throws.
  abbrev pub Bought : Mgr → Ticket → Result (Unit {0}) × Mgr → Type 0
  Bought m k x =
      (tickets x.1.requests ≡ (if is_ok x.0 then k ∷ tickets m.requests else tickets m.requests))
      × (x.1.answers ≡ m.answers)

  insert-Bought :
      (m t : Mgr) (r : Request) → Same m t → Bought m (ticket r) (Manager.insert_request H Q X r t)
  unfolding Manager.insert_request
  insert-Bought m t r (rs, as_) = elim (Bool-cases (is_taken r t.requests)) [
    | inl taken ↦ rw taken (ap tickets rs, as_)
    | inr free ↦ rw free (ap (λ q. ticket r ∷ tickets q) rs, as_)
  ]

  unsold : (m t : Mgr) (k : Ticket) (e : Exception) → Same m t → Bought m k (err e, t)
  unsold m t k e (rs, as_) = (ap tickets rs, as_)

  reset-Same : (m t : Mgr) → Same m t → Same m (Manager.reset_keepalive H Q X t)
  unfolding Manager.reset_keepalive
  reset-Same m t (rs, as_) = ground arith

  pub send_command-Bought :
      (type : ℕ) (content : List ℕ) (callback delay : ℕ) (m : Mgr)
      → Bought m
          (record { timer = next_timer H Q X delay m; callback = callback })
          (Manager.send_command H Q X type content callback delay m)
  unfolding Manager.send_command Manager.add_timeout Manager.make_next
  send_command-Bought type content callback delay m =
      let k : Ticket = record { timer = next_timer H Q X delay m; callback = callback } in
      let insert = λ (q : Packet). Manager.insert_request H Q X (new_request k.timer q callback) in
      let start = Manager.reset_keepalive H Q X (Manager.add_timeout H Q X (ticks delay) m).1 in
      let same : Same m start =
        reset-Same m (Manager.add_timeout H Q X (ticks delay) m).1 (refl, refl) in
      let t = Manager.next_id H Q X start in
      after_call (Bought m k) (make_command t.packet_id type content) t
        (λ q. Manager.write H Q X q >> insert q)
        (λ q.
          let (sent, u) = Manager.write H Q X q t in
          after_call (Bought m k) sent u (λ _. insert q)
            (λ _. insert-Bought m u (new_request k.timer q callback) same)
            (λ e. unsold m u k e same))
        (λ e. unsold m t k e same)
