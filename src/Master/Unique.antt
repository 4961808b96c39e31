-- ===== src/Master/Unique.antt =====
-- The keys of the pending requests of src/master_request.cpp stay unique under every method that
-- changes the container, whether it returns or throws.
use libhdcp.Base.{
  ℕ, List, not, Option, some, none, Result, arith, Bool-cases, Option-cases, Result-cases, inl, inr,
  length, ltb, ◌==◌,
}
use libhdcp.Base.State.{modify, ◌>>◌, Preserves, Preserves-bind, Preserves-seq}
use libhdcp.Interfaces.{Thread, TimeoutQueue, Transport}
use libhdcp.Packet.Format.{u16_at}
use libhdcp.Packet.Parse.{Packet, blocks}
use libhdcp.Packet.Make.{make_command}
use libhdcp.Slave.Manager.{first_block}
use libhdcp.Timing.{ticks}
use libhdcp.Master.Requests.{Request, new_request, find_request, find_command, is_taken, inc_retry}
use libhdcp.Master.Requests
use libhdcp.Master.Manager.{Timer, Manager, max_retry}
use libhdcp.Master.Manager
use libhdcp.Master.Pending.{
  Distinct, is_taken-false, erase_request-Distinct, erase_command-Distinct, inc_retry-Distinct,
}
use libhdcp.Master.Answers.{retry_keeps}

module _ (H : Thread) (Q : TimeoutQueue Timer) (X : Transport) where
  abbrev Mgr : Type 0
  Mgr = Manager H Q X

  -- The pending requests of a manager have unique keys.
  abbrev pub Unique : Mgr → Type 0
  Unique m = Distinct m.requests

  insert_request_keeps : (r : Request) → Preserves Unique (Manager.insert_request H Q X r)
  unfolding Manager.insert_request
  insert_request_keeps r m d = elim (Bool-cases (is_taken r m.requests)) [
    | inl taken ↦ rw taken d
    | inr free ↦
        let (timer, number) = is_taken-false r m.requests free in rw free (timer, number, d)
  ]

  make_next_keeps : (make : ℕ → Result Packet) → Preserves Unique (Manager.make_next H Q X make)
  unfolding Manager.make_next
  make_next_keeps make m d = d

  reset_keepalive_keeps : (m : Mgr) → Unique m → Unique (Manager.reset_keepalive H Q X m)
  unfolding Manager.reset_keepalive
  reset_keepalive_keeps m d = ground arith

  pub send_command_keeps :
      (type : ℕ) (content : List ℕ) (callback delay : ℕ)
      → Preserves Unique (Manager.send_command H Q X type content callback delay)
  unfolding Manager.send_command Manager.add_timeout
  send_command_keeps type content callback delay m d =
      let insert = λ (q : Packet). Manager.insert_request H Q X (
        new_request (Q.add_repeating m.timeout_queue m.now (ticks delay) Manager.cmd_timeout_cb).1 q
          callback) in
      Preserves-bind Unique (Manager.make_next H Q X (λ n. make_command n type content))
        (λ q. Manager.write H Q X q >> insert q)
        (make_next_keeps (λ n. make_command n type content))
        (λ q.
          Preserves-seq Unique (Manager.write H Q X q) (insert q) (λ t k. k)
            (insert_request_keeps (new_request _ q callback)))
        (Manager.reset_keepalive H Q X (Manager.add_timeout H Q X (ticks delay) m).1)
        (reset_keepalive_keeps (Manager.add_timeout H Q X (ticks delay) m).1 d)

  or_throw_keeps : (o : Option Request) → Preserves Unique (Manager.or_throw H Q X o)
  or_throw_keeps none m d = d
  or_throw_keeps (some r) m d = d

  -- The rest of `ack_command`, for the command that is acknowledged.
  answer_keeps :
      (p : Packet) (n : ℕ) (r : Request)
      → Preserves Unique (do
        modify (Manager.answer H Q X (record r { status = Requests.fulfilled; ack = some p }))
        modify (λ m. record m { timeout_queue = Q.erase m.timeout_queue r.id })
        modify (λ m. record m { requests = Requests.erase_command n m.requests }))
  answer_keeps p n r m d = erase_command-Distinct n m.requests d

  pub ack_command_keeps : (p : Packet) → Preserves Unique (Manager.ack_command H Q X p)
  unfolding Manager.ack_command
  ack_command_keeps p m d = elim (Result-cases (first_block (blocks p))) [
    | inr (e, none_first) ↦ rw none_first d
    | inl (b, first) ↦ elim (Bool-cases (not (length b.content == 2))) [
      | inl long ↦ rw (first, long) d
      | inr two ↦ elim (Option-cases (find_command (u16_at b.content 0) m.requests)) [
        | inl missing ↦ rw (first, two, missing, Manager.or_throw) d
        | inr (r, found) ↦ rw (first, two, found) (answer_keeps p (u16_at b.content 0) r m d)
      ]
    ]
  ]

  pub on_cmd_timeout_keeps : (i : ℕ) → Preserves Unique (Manager.on_cmd_timeout H Q X i)
  unfolding Manager.on_cmd_timeout
  on_cmd_timeout_keeps i m d = elim (Option-cases (find_request i m.requests)) [
    | inl missing ↦ rw (missing, Manager.or_throw) d
    | inr (r, found) ↦ elim (Bool-cases (ltb r.retry max_retry)) [
      | inl few ↦
          rw (found, few) (rw (retry_keeps H Q X i r m).0 (inc_retry-Distinct i m.requests d))
      | inr many ↦ rw (found, many) (erase_request-Distinct i m.requests d)
    ]
  ]

  pub start_keeps : (m : Mgr) → Unique m → Unique (Manager.start H Q X m)
  unfolding Manager.start Manager.clear
  start_keeps m d = ground arith

  -- The pending requests never share a timer or a number of a command: not after a command was
  -- sent or refused, not after an acknowledgement or a timeout, and not after a new start.
  pub requests-Unique :
      (type : ℕ) (content : List ℕ) (callback delay i : ℕ) (p : Packet) (m : Mgr)
      → Unique m
      → Unique (Manager.send_command H Q X type content callback delay m).1
        × Unique (Manager.ack_command H Q X p m).1
        × Unique (Manager.on_cmd_timeout H Q X i m).1
        × Unique (Manager.start H Q X m)
  requests-Unique type content callback delay i p m d = (
    send_command_keeps type content callback delay m d,
    ack_command_keeps p m d,
    on_cmd_timeout_keeps i m d,
    start_keeps m d,
  )
