-- ===== src/Master/Refused.antt =====
-- What a command that the transport refuses leaves behind in src/master_request.cpp, and what it
-- does to the thread of the manager.
use libhdcp.Base.{
  ℕ, ◌<◌, ◌≡◌, ◌≢◌, refl, ap, List, true, false, some, none, ok, err, Exception, arith,
}
use libhdcp.Interfaces.{Thread, TimeoutQueue, EventMngr, Transport}
use libhdcp.Packet.Parse.{Packet}
use libhdcp.Packet.Make.{make_command}
use libhdcp.Timing.{ticks, command_timeout}
use libhdcp.Master.Requests.{find_request}
use libhdcp.Master.Manager.{Timer, Manager, cmd_timeout_cb, max_retry}
use libhdcp.Master.Manager
use libhdcp.Master.Writing.{
  next_timer, next_number, timeout_entry, left, armed_lem, send_command-refused,
}
use libhdcp.Master.Machine.{connected, Event}
use libhdcp.Master.Machine
use libhdcp.Master.Engine
use libhdcp.Master.Doomed.{IsDoomed, reset-Doomed}
use libhdcp.Master.Ending.{rounds, rounds_lem, run_manager-ended}

module _ (H : Thread) (Q : TimeoutQueue Timer) (V : EventMngr Event) (X : Transport) where
  abbrev Master : Type 0
  Master = Machine.Master H Q V X

  -- The state after a refused command.
  left-Doomed :
      (delay : ℕ) (p : Packet) (m : Manager H Q X)
      → H.is_running m.thread ≡ true
      → m.ended ≡ false
      → next_timer H Q X delay m ≢ m.keepalive_mngt_id
      → find_request (next_timer H Q X delay m) m.requests ≡ none
      → IsDoomed H Q X
          (next_timer H Q X delay m)
          (timeout_entry H Q X delay m)
          m.now
          (left H Q X delay p m)
  unfolding Manager.add_timeout
  left-Doomed delay p m runs goes_on other free =
      let i = next_timer H Q X delay m in
      let e = timeout_entry H Q X delay m in
      let d = reset-Doomed H Q X i e m.now (Manager.add_timeout H Q X (ticks delay) m).1 (record {
        runs = runs;
        goes_on = goes_on;
        time = refl;
        is_pending = Q.pending-add_repeating m.timeout_queue m.now (ticks delay) cmd_timeout_cb;
        is_other = other;
        is_unknown = free;
      }) in
      record {
        runs = d.runs;
        goes_on = d.goes_on;
        time = d.time;
        is_pending = d.is_pending;
        is_other = d.is_other;
        is_unknown = d.is_unknown;
      }

  -- A connected master, whose manager's thread runs, sends a command that the transport refuses,
  -- under a timer that belongs to no pending request and is not the one of the keep-alive. The
  -- command throws what the transport throws and leaves no request, but its timer stays pending.
  -- If only the thread of the manager works then, an exception has ended it once it made more rounds
  -- than the timer has ticks, and later rounds do nothing.
  pub refused_command_lem :
      (type : ℕ) (content : List ℕ) (callback k : ℕ) (s : Master) (p : Packet) (x : Exception)
      → s.state ≡ connected
      → H.is_running s.manager.thread ≡ true
      → s.manager.ended ≡ false
      → make_command (next_number H Q X s.manager) type content ≡ ok p
      → (X.write p s.manager.transport).0 ≡ err x
      → next_timer H Q X command_timeout s.manager ≢ s.manager.keepalive_mngt_id
      → find_request (next_timer H Q X command_timeout s.manager) s.manager.requests ≡ none
      → ticks command_timeout < k
      → let r = Engine.send_command H Q V X type content callback s in
        let t = rounds H Q V X k r.1 in
        (r.0 ≡ err x)
        × (r.1.manager.requests ≡ s.manager.requests)
        × (Q.pending r.1.manager.timeout_queue (next_timer H Q X command_timeout s.manager)
            ≡ some (timeout_entry H Q X command_timeout s.manager))
        × (t.manager.ended ≡ true)
        × (Engine.run_manager H Q V X t ≡ (ok tt, t))
  unfolding Engine.send_command
  refused_command_lem type content callback k s p x on runs goes_on made refused other free enough =
      let m = s.manager in
      let i = next_timer H Q X command_timeout m in
      let e = timeout_entry H Q X command_timeout m in
      let t = record s { manager = left H Q X command_timeout p m } in
      let is_on : Engine.is_connected H Q V X s.state ≡ true = rw on refl in
      let sent : Engine.send_command H Q V X type content callback s ≡ (err x, t) = rw is_on (
        ap (λ r. (r.0, record s { manager = r.1 }))
          (send_command-refused H Q X type content callback command_timeout m p x made refused)) in
      let d = left-Doomed command_timeout p m runs goes_on other free in
      let ended = rounds_lem H Q V X i k e m.now t refl d (omega arith) (omega arith) in
      rw sent (
        refl,
        (armed_lem H Q X command_timeout m).0,
        d.is_pending,
        ended,
        run_manager-ended H Q V X (rounds H Q V X k t) ended,
      )
