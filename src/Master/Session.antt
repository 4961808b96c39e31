-- ===== src/Master/Session.antt =====
-- The states of a master of src/master.cpp, as the engine goes through them.
use libhdcp.Base.{ℕ, ◌≡◌, ◌⊎◌, Bool, Option, some, none, arith, get_elem?}
use libhdcp.Base.State.{
  M, modify, when, pure, ◌>>=◌, ◌>>◌, Preserves, Preserves-bind, Preserves-seq, Preserves-when,
}
use libhdcp.Interfaces.{Thread, TimeoutQueue, EventMngr, Transport}
use libhdcp.Packet.Format.{PacketType, dip, ka_ack, cmd_ack, data_packet}
use libhdcp.Packet.Parse.{Packet, type}
use libhdcp.Timing.{keepalive_interval, keepalive_timeout}
use libhdcp.Master.Manager.{Timer}
use libhdcp.Master.Manager
use libhdcp.Master.Machine.{
  State, init, disconnected, connecting, connected, Event, Transition, stay_curr_state,
  goto_next_state, Method, handler_state_init, handler_state_disconnected, handler_state_connecting,
  handler_state_connected, table,
}
use libhdcp.Master.Machine

-- The diagram of the states.
pub data Edge : State → State → Type 0 where
  boot : Edge init disconnected
  requested : Edge disconnected connecting
  failed : Edge connecting disconnected
  accepted : Edge connecting connected
  dropped : Edge connected disconnected

abbrev pub handler_of : State → Method
handler_of init = handler_state_init
handler_of disconnected = handler_state_disconnected
handler_of connecting = handler_state_connecting
handler_of connected = handler_state_connected

-- An entry of the table is the state's handler, or it follows an edge.
pub table-Edge :
    (st : State) (i : ℕ) (e : State × Method)
    → get_elem? (table st) i ≡ some e
    → (e ≡ (st, handler_of st)) ⊎ Edge st e.0
table-Edge init i e h = grind (arith, boot)
table-Edge disconnected i e h = grind (arith, requested)
table-Edge connecting i e h = grind (arith, failed, accepted)
table-Edge connected i e h = grind (arith, dropped)

module _ (H : Thread) (Q : TimeoutQueue Timer) (V : EventMngr Event) (X : Transport) where
  abbrev Master : Type 0
  Master = Machine.Master H Q V X

  -- What only the engine writes.
  abbrev pub SameReport : Master → Master → Type 0
  SameReport s t = (t.state ≡ s.state) × (t.status_calls ≡ s.status_calls)

  abbrev pub body : (Packet → M Master (Unit {0})) → M Master (Unit {0})
  body f = Machine.read H Q V X >>= Machine.for_packet H Q V X f

  abbrev pub in_connecting : Packet → M Master (Unit {0})
  in_connecting p = Machine.receive_connecting H Q V X (type p) p

  abbrev pub in_connected : Packet → M Master (Unit {0})
  in_connected p =
      modify (Machine.count_packet H Q V X p) >> Machine.receive_connected H Q V X (type p) p

  abbrev pub try_connect : Bool → M Master Transition
  try_connect due =
      when due (Machine.attempt H Q V X) >> (body in_connecting >> pure stay_curr_state)

  abbrev pub begin_keepalive : M Master (Unit {0})
  begin_keepalive =
      Machine.on_manager H Q V X
        (Manager.start_keepalive_management H Q X keepalive_interval keepalive_timeout)

  module _ (s : Master) where
    body_keeps :
        (f : Packet → M Master (Unit {0}))
        → ((p : Packet) → Preserves (SameReport s) (f p))
        → Preserves (SameReport s) (body f)
    body_keeps f pf =
        Preserves-bind (SameReport s) (Machine.read H Q V X) (Machine.for_packet H Q V X f)
          (λ t k. k) packet_keeps
      where
        packet_keeps :
            (o : Option Packet) → Preserves (SameReport s) (Machine.for_packet H Q V X f o)
        packet_keeps none t k = k
        packet_keeps (some p) t k = pf p t k

    receive_connecting_keeps :
        (t : Option PacketType) (p : Packet)
        → Preserves (SameReport s) (Machine.receive_connecting H Q V X t p)
    unfolding Machine.receive_connecting Machine.set_slave_id
    receive_connecting_keeps (some dip) p t k = k
    receive_connecting_keeps none p t k = k
    receive_connecting_keeps (some _) p t k = k

    receive_connected_keeps :
        (t : Option PacketType) (p : Packet)
        → Preserves (SameReport s) (Machine.receive_connected H Q V X t p)
    unfolding Machine.receive_connected
    receive_connected_keeps (some cmd_ack) p t k = k
    receive_connected_keeps (some data_packet) p t k = k
    receive_connected_keeps (some ka_ack) p t k = k
    receive_connected_keeps none p t k = k
    receive_connected_keeps (some _) p t k = k

    attempt_keeps : Preserves (SameReport s) (Machine.attempt H Q V X)
    unfolding Machine.attempt
    attempt_keeps t k = k

    attempt_due_keeps : Preserves (SameReport s) (Machine.attempt_due H Q V X)
    unfolding Machine.attempt_due
    attempt_due_keeps t k = ground arith

    enter_connecting_keeps : Preserves (SameReport s) (Machine.enter_connecting H Q V X)
    unfolding Machine.enter_connecting
    enter_connecting_keeps t k = k

    pub connecting_keeps :
        (first : Bool) → Preserves (SameReport s) (Machine.run_handler_connecting H Q V X first)
    unfolding Machine.run_handler_connecting
    connecting_keeps first =
        Preserves-seq (SameReport s) (when first (Machine.enter_connecting H Q V X))
          (Machine.attempt_due H Q V X >>= try_connect)
          (Preserves-when (SameReport s) first (Machine.enter_connecting H Q V X)
            enter_connecting_keeps)
          (Preserves-bind (SameReport s) (Machine.attempt_due H Q V X) try_connect attempt_due_keeps
            (λ due.
              Preserves-seq (SameReport s) (when due (Machine.attempt H Q V X))
                (body in_connecting >> pure stay_curr_state)
                (Preserves-when (SameReport s) due (Machine.attempt H Q V X) attempt_keeps)
                (Preserves-seq (SameReport s) (body in_connecting) (pure stay_curr_state)
                  (body_keeps in_connecting (λ p. receive_connecting_keeps (type p) p))
                  (λ t k. k))))

    count_packet_keeps :
        (p : Packet) → Preserves (SameReport s) (modify (Machine.count_packet H Q V X p))
    unfolding Machine.count_packet
    count_packet_keeps p t k = k

    pub connected_keeps :
        (first : Bool) → Preserves (SameReport s) (Machine.run_handler_connected H Q V X first)
    unfolding Machine.run_handler_connected
    connected_keeps first =
        Preserves-seq (SameReport s) (when first begin_keepalive)
          (body in_connected >> pure stay_curr_state)
          (Preserves-when (SameReport s) first begin_keepalive (λ t k. k))
          (Preserves-seq (SameReport s) (body in_connected) (pure stay_curr_state)
            (body_keeps in_connected (λ p.
              Preserves-seq (SameReport s) (modify (Machine.count_packet H Q V X p))
                (Machine.receive_connected H Q V X (type p) p) (count_packet_keeps p)
                (receive_connected_keeps (type p) p)))
            (λ t k. k))
