-- ===== src/Master/Commands.antt =====
-- How commands begin in src/master_request.cpp: `send_command`, and the request that it inserts.
use libhdcp.Base.{
  ℕ, ◌+◌, ◌≤◌, ◌≡◌, ◌≢◌, refl, ◌∙◌, List, [], ◌∷◌, ◌++◌, true, some, none, ok, ◌⊎◌, arith, length,
}
use libhdcp.Interfaces.{Thread, TimeoutQueue, Transport, Takes}
use libhdcp.Packet.Format.{cmd, bheader_size, max_pl_size, IsU16}
use libhdcp.Packet.Parse.{Packet}
use libhdcp.Packet.Make.{make_command}
use libhdcp.Packet.RoundTrip.{Carries}
use libhdcp.Packet.Constructors.{make_command-Carries}
use libhdcp.Master.Requests.{Request, new_request, command_id, find_request, find_command, is_taken}
use libhdcp.Master.Manager.{Timer, Manager, cmd_timeout_cb}
use libhdcp.Master.Manager
use libhdcp.Master.Pending.{Distinct}
use libhdcp.Master.Writing.{
  next_timer, next_number, timeout_entry, armed_lem, armed_pending, armed, written, write_returned,
  send_command_rest,
}

module _ (H : Thread) (Q : TimeoutQueue Timer) (X : Transport) where
  abbrev Mgr : Type 0
  Mgr = Manager H Q X

  insert_lem :
      (r : Request) (m : Mgr)
      → Distinct m.requests
      → find_request r.id m.requests ≡ none
      → find_command (command_id r) m.requests ≡ none
      → (Manager.insert_request H Q X r m ≡ (ok tt, record m { requests = r ∷ m.requests }))
        × (find_request r.id (r ∷ m.requests) ≡ some r)
        × (find_command (command_id r) (r ∷ m.requests) ≡ some r)
        × Distinct (r ∷ m.requests)
  unfolding Manager.insert_request is_taken find_request find_command
  insert_lem r m d free_timer free_number =
      (rw (free_timer, free_number) refl, ground arith, ground arith, (free_timer, free_number, d))

  -- A command that fits a packet is sent over an open transport, under the next number, if neither
  -- this number nor the new timer belongs to a pending request: it becomes a pending request that
  -- is found by its number and by its timer, the timer repeats, the keys stay unique, and no
  -- request is answered.
  pub send_command-accepted :
      (R : Takes X) (type : ℕ) (content : List ℕ) (callback delay : ℕ) (m : Mgr)
      → IsU16 type
      → length content + bheader_size ≤ max_pl_size
      → X.is_open m.transport ≡ true
      → next_timer H Q X delay m ≢ m.keepalive_mngt_id
      → Distinct m.requests
      → find_request (next_timer H Q X delay m) m.requests ≡ none
      → find_command (next_number H Q X m) m.requests ≡ none
      → let r = Manager.send_command H Q X type content callback delay m in
        (p : Packet) × Carries p
          (next_number H Q X m)
          cmd
          (record { type = type; content = content } ∷ [])
        × (r.0 ≡ ok tt)
        × (R.sent r.1.transport ≡ R.sent m.transport ++ (p ∷ []))
        × (find_command (next_number H Q X m) r.1.requests
            ≡ some (new_request (next_timer H Q X delay m) p callback))
        × (find_request (next_timer H Q X delay m) r.1.requests
            ≡ some (new_request (next_timer H Q X delay m) p callback))
        × (Q.pending r.1.timeout_queue (next_timer H Q X delay m)
            ≡ some (timeout_entry H Q X delay m))
        × Distinct r.1.requests
        × (r.1.answers ≡ m.answers)
  send_command-accepted R type content callback delay m h small o other d free_timer free_number =
      let (p, made, c) =
        make_command-Carries (next_number H Q X m) type content (omega arith) h small in
      let (requests, answers, transport, number) = armed_lem H Q X delay m in
      let request = λ (q : Packet). new_request (next_timer H Q X delay m) q callback in
      let made' : make_command (next_number H Q X (armed H Q X delay m)) type content ≡ ok p =
        rw number made in
      let out = written H Q X type content request (armed H Q X delay m) p made' in
      let (inserted, by_timer, by_number, distinct) =
        insert_lem (request p) out (rw requests d) (rw requests free_timer)
          (rw (c.has_id, requests) free_number) in
      let sent : Manager.send_command H Q X type content callback delay m
          ≡ (ok tt, record out { requests = request p ∷ out.requests }) =
        send_command_rest H Q X type content callback delay m
        ∙ write_returned H Q X type content request (armed H Q X delay m) p made'
            (rw transport (R.write_ok p m.transport o))
        ∙ inserted in
      rw sent (
        p,
        c,
        refl,
        rw transport (R.sent-write p m.transport o),
        rw c.has_id at by_number,
        by_timer,
        armed_pending H Q X delay m other,
        distinct,
        answers,
      )

  -- Whether the number or the timer of the next command belongs to a pending request.
  abbrev pub IsOverrun : ℕ → Mgr → Type 0
  IsOverrun delay m =
      (find_request (next_timer H Q X delay m) m.requests ≢ none)
      ⊎ (find_command (next_number H Q X m) m.requests ≢ none)
