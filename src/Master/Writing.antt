-- ===== src/Master/Writing.antt =====
-- How `send_command` of src/master_request.cpp sets its timers, makes its packet and writes it.
use libhdcp.Base.{
  ℕ, ◌+◌, ◌%◌, ◌^◌, ◌≡◌, ◌≢◌, refl, ap, ◌∙◌, List, some, ok, err, Exception, arith, Bool-cases, inl,
  inr,
}
use libhdcp.Base.State.{M, ◌>>=◌, ◌>>◌, >>=-ok, >>-ok, >>-err}
use libhdcp.Interfaces.{Thread, TimeoutQueue, Entry, Transport}
use libhdcp.Packet.Parse.{Packet}
use libhdcp.Packet.Make.{make_command}
use libhdcp.Timing.{ticks}
use libhdcp.Timing
use libhdcp.Master.Requests.{Request, new_request}
use libhdcp.Master.Manager.{Timer, Manager, cmd_timeout_cb}
use libhdcp.Master.Manager

module _ (H : Thread) (Q : TimeoutQueue Timer) (X : Transport) where
  abbrev Mgr : Type 0
  Mgr = Manager H Q X

  -- The identifier that the queue gives to the timeout of the next command.
  abbrev pub next_timer : ℕ → Mgr → ℕ
  next_timer delay m = (Q.add_repeating m.timeout_queue m.now (ticks delay) cmd_timeout_cb).1

  abbrev pub next_number : Mgr → ℕ
  next_number m = (m.packet_id + 1) % 2 ^ 16

  -- The timeout of a command: it repeats, from now on.
  abbrev pub timeout_entry : ℕ → Mgr → Entry Timer
  timeout_entry delay m = record {
    callback = cmd_timeout_cb;
    due = m.now + ticks delay;
    interval = some (ticks delay);
  }

  pub reset_keeps :
      (i : ℕ) (e : Entry Timer) (m : Mgr)
      → Q.pending m.timeout_queue i ≡ some e
      → i ≢ m.keepalive_mngt_id
      → Q.pending (Manager.reset_keepalive H Q X m).timeout_queue i ≡ some e
  unfolding Manager.reset_keepalive
  reset_keeps i e m h other = elim (Bool-cases m.keepalive_mngt) [
    | inr off ↦ rw off h
    | inl on ↦
        let q = Q.erase m.timeout_queue m.keepalive_mngt_id in
        let delay = ticks Timing.keepalive_interval in
        let kept = Q.pending-erase_other m.timeout_queue m.keepalive_mngt_id i other ∙ h in
        rw on (
          Q.pending-add_repeating_other q m.now delay Manager.ka_mngt_timeout_cb i (λ same.
            cc (Q.add_repeating_fresh q m.now delay Manager.ka_mngt_timeout_cb, same, kept))
          ∙ kept)
  ]

  -- What `send_command` does after it has set its timers.
  abbrev send_rest : ℕ → List ℕ → (Packet → Request) → M Mgr (Unit {0})
  send_rest type content request = do
    p ← Manager.make_next H Q X (λ n. make_command n type content)
    Manager.write H Q X p
    Manager.insert_request H Q X (request p)

  module _ (type : ℕ) (content : List ℕ) (request : Packet → Request) (t : Mgr) (p : Packet)
      (made : make_command (next_number t) type content ≡ ok p) where
    abbrev pub written : Mgr
    written = record (Manager.next_id H Q X t) { transport = (X.write p t.transport).1 }

    abbrev tail : Packet → M Mgr (Unit {0})
    tail q = Manager.write H Q X q >> Manager.insert_request H Q X (request q)

    made_next :
        Manager.make_next H Q X (λ n. make_command n type content) t
        ≡ (ok p, Manager.next_id H Q X t)
    unfolding Manager.make_next
    made_next = ap (λ r. (r, Manager.next_id H Q X t)) made

    made_rest : send_rest type content request t ≡ tail p (Manager.next_id H Q X t)
    made_rest =
        >>=-ok (Manager.make_next H Q X (λ n. make_command n type content)) tail t
          (Manager.next_id H Q X t) p made_next

    write_failed :
        (x : Exception)
        → (X.write p t.transport).0 ≡ err x
        → send_rest type content request t ≡ (err x, written)
    write_failed x e =
        made_rest
        ∙ >>-err (Manager.write H Q X p) (Manager.insert_request H Q X (request p))
            (Manager.next_id H Q X t) written x (ap (λ r. (r, written)) e)

    pub write_returned :
        (X.write p t.transport).0 ≡ ok tt
        → send_rest type content request t ≡ Manager.insert_request H Q X (request p) written
    write_returned e =
        made_rest
        ∙ >>-ok (Manager.write H Q X p) (Manager.insert_request H Q X (request p))
            (Manager.next_id H Q X t) written (ap (λ r. (r, written)) e)

  -- The manager when `send_command` has set its timers.
  abbrev pub armed : ℕ → Mgr → Mgr
  armed delay m = Manager.reset_keepalive H Q X (Manager.add_timeout H Q X (ticks delay) m).1

  pub send_command_rest :
      (type : ℕ) (content : List ℕ) (callback delay : ℕ) (m : Mgr)
      → Manager.send_command H Q X type content callback delay m
        ≡ send_rest type content (λ p. new_request (next_timer delay m) p callback) (armed delay m)
  unfolding Manager.send_command Manager.add_timeout
  send_command_rest type content callback delay m = refl

  pub armed_lem :
      (delay : ℕ) (m : Mgr)
      → ((armed delay m).requests ≡ m.requests)
        × ((armed delay m).answers ≡ m.answers)
        × ((armed delay m).transport ≡ m.transport)
        × ((armed delay m).packet_id ≡ m.packet_id)
  unfolding Manager.add_timeout Manager.reset_keepalive
  armed_lem delay m = ground arith

  pub armed_pending :
      (delay : ℕ) (m : Mgr)
      → next_timer delay m ≢ m.keepalive_mngt_id
      → Q.pending (armed delay m).timeout_queue (next_timer delay m) ≡ some (timeout_entry delay m)
  unfolding Manager.add_timeout
  armed_pending delay m other =
      reset_keeps (next_timer delay m) (timeout_entry delay m)
        (Manager.add_timeout H Q X (ticks delay) m).1
        (Q.pending-add_repeating m.timeout_queue m.now (ticks delay) cmd_timeout_cb) other

  -- What a command that the transport refuses leaves behind.
  abbrev pub left : ℕ → Packet → Mgr → Mgr
  left delay p m =
      let t = armed delay m in
      record (Manager.next_id H Q X t) { transport = (X.write p t.transport).1 }

  pub send_command-refused :
      (type : ℕ) (content : List ℕ) (callback delay : ℕ) (m : Mgr) (p : Packet) (x : Exception)
      → make_command (next_number m) type content ≡ ok p
      → (X.write p m.transport).0 ≡ err x
      → Manager.send_command H Q X type content callback delay m ≡ (err x, left delay p m)
  send_command-refused type content callback delay m p x made refused =
      let (requests, answers, transport, number) = armed_lem delay m in
      let request = λ (q : Packet). new_request (next_timer delay m) q callback in
      send_command_rest type content callback delay m
      ∙ write_failed type content request (armed delay m) p (rw number made) x
          (rw transport refused)
