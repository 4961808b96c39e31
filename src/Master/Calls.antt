-- ===== src/Master/Calls.antt =====
-- Whatever a master of src/master.cpp does, it does to its manager by the calls of its methods.
use libhdcp.Base.{
  ℕ, List, [], ◌∷◌, Bool, true, false, Option, some, none, Result, ok, err, code, ErrorCode, arith,
  Bool-cases, inl, inr, ◌==◌,
}
use libhdcp.Base.State.{
  M, modify, when, pure, ◌>>=◌, ◌>>◌, Preserves, Preserves-bind, Preserves-seq, Preserves-when,
}
use libhdcp.Interfaces.{Thread, TimeoutQueue, EventMngr, Transport}
use libhdcp.Packet.Format.{PacketType, dip, ka_ack, cmd_ack, data_packet}
use libhdcp.Packet.Parse.{Packet, type}
use libhdcp.Timing.{connecting_timeout, keepalive_interval, keepalive_timeout, command_timeout}
use libhdcp.Master.Manager.{Timer, Manager}
use libhdcp.Master.Manager
use libhdcp.Master.Accounts.{
  Call, command, acknowledged, cmd_timeout, hip, keepalive_started, ka_mngt_timeout,
  ka_acknowledged, dip_acknowledged, started, stopped, run,
}
use libhdcp.Master.Machine.{
  State, init, disconnected, connecting, connected, Event, Transition, stay_curr_state,
  goto_next_state, Method, handler_state_init, handler_state_disconnected, handler_state_connecting,
  handler_state_connected, check_true, check_connection_requested, check_connected,
  check_disconnected, check_dip_timeout, check_ka_timeout, check_transport_closed,
}
use libhdcp.Master.Machine
use libhdcp.Master.Engine
use libhdcp.Master.Session

module _ (H : Thread) (Q : TimeoutQueue Timer) (V : EventMngr Event) (X : Transport) where
  abbrev Master : Type 0
  Master = Machine.Master H Q V X

  -- A predicate that the calls, the rounds of the thread and the link keep.
  pub record IsClosed (P : Manager H Q X → Type 0) : Type 0 where
    pub on_call : (c : Call) (m : Manager H Q X) → P m → P (run H Q X c m).1
    pub on_round : (m : Manager H Q X) → P m → P (Manager.run_round H Q X m).1
    pub on_ended : (m : Manager H Q X) → P m → P (record m { ended = true })
    pub on_link : (l : X.Link) (m : Manager H Q X) → P m → P (record m { transport = l })

  module _ (P : Manager H Q X → Type 0) (cl : IsClosed P) where
    -- It holds of the manager.
    abbrev Holds : Master → Type 0
    Holds s = P s.manager

    body-Holds :
        (f : Packet → M Master (Unit {0}))
        → ((p : Packet) → Preserves Holds (f p))
        → Preserves Holds (Session.body H Q V X f)
    body-Holds f pf =
        Preserves-bind Holds (Machine.read H Q V X) (Machine.for_packet H Q V X f)
          (λ t k. cl.on_link _ t.manager k) packet-Holds
      where
        packet-Holds : (o : Option Packet) → Preserves Holds (Machine.for_packet H Q V X f o)
        packet-Holds none t k = k
        packet-Holds (some p) t k = pf p t k

    receive_connecting-Holds :
        (t : Option PacketType) (p : Packet)
        → Preserves Holds (Machine.receive_connecting H Q V X t p)
    unfolding Machine.receive_connecting Machine.set_slave_id
    receive_connecting-Holds (some dip) p t k = cl.on_call dip_acknowledged t.manager k
    receive_connecting-Holds none p t k = k
    receive_connecting-Holds (some _) p t k = k

    receive_connected-Holds :
        (t : Option PacketType) (p : Packet)
        → Preserves Holds (Machine.receive_connected H Q V X t p)
    unfolding Machine.receive_connected
    receive_connected-Holds (some cmd_ack) p t k = cl.on_call (acknowledged p) t.manager k
    receive_connected-Holds (some data_packet) p t k = k
    receive_connected-Holds (some ka_ack) p t k = cl.on_call ka_acknowledged t.manager k
    receive_connected-Holds none p t k = k
    receive_connected-Holds (some _) p t k = k

    attempt-Holds : Preserves Holds (Machine.attempt H Q V X)
    unfolding Machine.attempt
    attempt-Holds t k = cl.on_call (hip t.master_id connecting_timeout) t.manager k

    attempt_due-Holds : Preserves Holds (Machine.attempt_due H Q V X)
    unfolding Machine.attempt_due
    attempt_due-Holds t k = elim (Bool-cases (t.connection_attempts == 0)) [
      | inl none_yet ↦ rw none_yet k
      | inr some_attempt ↦ rw some_attempt k
    ]

    enter_connecting-Holds : Preserves Holds (Machine.enter_connecting H Q V X)
    unfolding Machine.enter_connecting
    enter_connecting-Holds t k =
        let l = X.clear_queues t.manager.transport in
        cl.on_call started (record t.manager { transport = l }) (cl.on_link l t.manager k)

    connecting-Holds :
        (first : Bool) → Preserves Holds (Machine.run_handler_connecting H Q V X first)
    unfolding Machine.run_handler_connecting
    connecting-Holds first =
        let receive = Session.body H Q V X (Session.in_connecting H Q V X) in
        Preserves-seq Holds (when first (Machine.enter_connecting H Q V X))
          (Machine.attempt_due H Q V X >>= Session.try_connect H Q V X)
          (Preserves-when Holds first (Machine.enter_connecting H Q V X) enter_connecting-Holds)
          (Preserves-bind Holds (Machine.attempt_due H Q V X) (Session.try_connect H Q V X)
            attempt_due-Holds
            (λ due.
              Preserves-seq Holds (when due (Machine.attempt H Q V X))
                (receive >> pure stay_curr_state)
                (Preserves-when Holds due (Machine.attempt H Q V X) attempt-Holds)
                (Preserves-seq Holds receive (pure stay_curr_state)
                  (body-Holds (Session.in_connecting H Q V X)
                    (λ p. receive_connecting-Holds (type p) p))
                  (λ t k. k))))

    count_packet-Holds : (p : Packet) → Preserves Holds (modify (Machine.count_packet H Q V X p))
    unfolding Machine.count_packet
    count_packet-Holds p t k = k

    connected-Holds : (first : Bool) → Preserves Holds (Machine.run_handler_connected H Q V X first)
    unfolding Machine.run_handler_connected
    connected-Holds first =
        let receive = Session.body H Q V X (Session.in_connected H Q V X) in
        Preserves-seq Holds (when first (Session.begin_keepalive H Q V X))
          (receive >> pure stay_curr_state)
          (Preserves-when Holds first (Session.begin_keepalive H Q V X) (λ t k.
            cl.on_call (keepalive_started keepalive_interval keepalive_timeout) t.manager k))
          (Preserves-seq Holds receive (pure stay_curr_state)
            (body-Holds (Session.in_connected H Q V X) (λ p.
              Preserves-seq Holds (modify (Machine.count_packet H Q V X p))
                (Machine.receive_connected H Q V X (type p) p) (count_packet-Holds p)
                (receive_connected-Holds (type p) p)))
            (λ t k. k))

    call-Holds : (m : Method) (first : Bool) → Preserves Holds (Engine.call H Q V X m first)
    unfolding Engine.call
    call-Holds handler_state_init first s k = k
    call-Holds handler_state_disconnected true s k = cl.on_call stopped s.manager k
    call-Holds handler_state_disconnected false s k = k
    call-Holds handler_state_connecting first s k = connecting-Holds first s k
    call-Holds handler_state_connected first s k = connected-Holds first s k
    call-Holds check_true first s k = k
    call-Holds check_connection_requested first s k = k
    call-Holds check_connected first s k = k
    call-Holds check_disconnected first s k = k
    call-Holds check_dip_timeout first s k = ground arith
    call-Holds check_ka_timeout first s k = ground arith
    call-Holds check_transport_closed first s k = ground arith

    keep_code-Holds :
        (c : Option ErrorCode) (s : Master) → Holds s → Holds (Engine.keep_code H Q V X c s)
    keep_code-Holds none s k = k
    keep_code-Holds (some c) s k = k

    finish-Holds :
        (target : State) (r : Result Transition) (s : Master)
        → Holds s
        → Holds (Engine.finish H Q V X target (r, s))
    unfolding Engine.finish
    finish-Holds target (ok goto_next_state) s k = k
    finish-Holds target (ok stay_curr_state) s k = k
    finish-Holds target (err e) s k = keep_code-Holds (code e) s k

    -- A call of an entry of the table.
    pub run_entry-Holds :
        (e : State × Method) (first : Bool) (s : Master)
        → P s.manager
        → P (Engine.run_entry H Q V X e first s).manager
    unfolding Engine.run_entry
    run_entry-Holds e first s k =
        let r = Engine.call H Q V X e.1 first s in
        finish-Holds e.0 r.0 r.1 (call-Holds e.1 first s k)

    on_timer-Holds : (t : ℕ × Timer) → Preserves Holds (Engine.on_timer H Q V X t)
    unfolding Engine.on_timer
    on_timer-Holds (i, Manager.cmd_timeout_cb) s k = cl.on_call (cmd_timeout i) s.manager k
    on_timer-Holds (i, Manager.ka_mngt_timeout_cb) s k = cl.on_call ka_mngt_timeout s.manager k
    on_timer-Holds (i, Manager.ka_timeout_cb) s k = k
    on_timer-Holds (i, Manager.dip_timeout_cb) s k = k

    on_timers-Holds : (ts : List (ℕ × Timer)) → Preserves Holds (Engine.on_timers H Q V X ts)
    unfolding Engine.on_timers
    on_timers-Holds [] s k = k
    on_timers-Holds (t ∷ ts) s k =
        Preserves-seq Holds (Engine.on_timer H Q V X t) (Engine.on_timers H Q V X ts)
          (on_timer-Holds t) (on_timers-Holds ts) s k

    leave_run-Holds :
        (r : Result (Unit {0})) (s : Master) → Holds s → Holds (Engine.leave_run H Q V X (r, s)).1
    leave_run-Holds (ok a) s k = k
    leave_run-Holds (err e) s k = cl.on_ended s.manager k

    -- A round of the thread.
    pub run_manager-Holds : (s : Master) → P s.manager → P (Engine.run_manager H Q V X s).1.manager
    unfolding Engine.run_manager
    run_manager-Holds s k =
        let (calls, m) = Manager.run_round H Q X s.manager in
        let r = Engine.on_timers H Q V X calls (record s { manager = m }) in
        leave_run-Holds r.0 r.1 (on_timers-Holds calls _ (cl.on_round s.manager k))

    -- A command of the application.
    pub send_command-Holds :
        (t : ℕ) (content : List ℕ) (callback : ℕ) (s : Master)
        → P s.manager
        → P (Engine.send_command H Q V X t content callback s).1.manager
    unfolding Engine.send_command
    send_command-Holds t content callback s k =
        elim (Bool-cases (Engine.is_connected H Q V X s.state)) [
          | inl on ↦ rw on (cl.on_call (command t content callback command_timeout) s.manager k)
          | inr off ↦ rw off k
        ]
