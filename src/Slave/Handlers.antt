-- ===== src/Slave/Handlers.antt =====
-- What the handlers of src/slave.cpp do with the packet they read.
use libhdcp.Base.{ℕ, List, [], ◌∷◌, Bool, Option, some, none, ErrorCode}
use libhdcp.Base.State.{
  M, modify, pure, when, ◌>>=◌, ◌>>◌, Preserves, Preserves-seq, Preserves-when,
}
use libhdcp.Interfaces.{Thread, TimeoutQueue, EventMngr, Transport}
use libhdcp.Identity.{no_identification}
use libhdcp.Packet.Format.{BlockView, PacketType, hip, ka, cmd}
use libhdcp.Packet.Parse.{Packet, id, type, blocks}
use libhdcp.Packet.Make.{Identification}
use libhdcp.Slave.Manager.{Timer, Manager}
use libhdcp.Slave.Manager
use libhdcp.Timing.{keepalive_timeout}
use libhdcp.Slave.Machine.{
  State, init, disconnected, connecting, connected, Event, hip_received, first_ka_received,
  ka_timeout_event, Transition, stay_curr_state, goto_next_state, Method, handler_state_init,
  handler_state_disconnected, handler_state_connecting, handler_state_connected, check_true,
  check_hip_received, check_connected, check_ka_timeout, check_transport_closed, table,
}
use libhdcp.Slave.Machine

module _ (H : Thread) (Q : TimeoutQueue Timer) (V : EventMngr Event) (X : Transport) where
  abbrev Slave : Type 0
  Slave = Machine.Slave H Q V X

  -- A predicate that does not look at the parts that the handlers write while a session lasts.
  pub record IsStable (P : Slave → Type 0) : Type 0 where
    pub on_manager : (s : Slave) (m : Manager H Q X) → P s → P (record s { manager = m })
    pub on_notify : (s : Slave) (e : Event) → P s → P (record s { events = V.notify e s.events })
    pub on_cmd_calls : (s : Slave) (l : List BlockView) → P s → P (record s { cmd_calls = l })
    pub on_errc : (s : Slave) (e : ErrorCode) → P s → P (record s { errc = e })
    pub on_forget : (s : Slave) → P s → P (record s { master_id = no_identification })

  module _ (P : Slave → Type 0) (st : IsStable P) where
    abbrev on_keepalive : M Slave (Unit {0})
    on_keepalive = Machine.on_manager H Q V X (Manager.keepalive H Q X)

    manager_keeps : (f : M (Manager H Q X) (Unit {0})) → Preserves P (Machine.on_manager H Q V X f)
    manager_keeps f s h = st.on_manager s (f s.manager).1 h

    read_keeps : Preserves P (Machine.read H Q V X)
    read_keeps s h = st.on_manager s _ h

    notify_keeps : (e : Event) → Preserves P (Machine.notify H Q V X e)
    notify_keeps e s h = st.on_notify s e h

    for_packet_keeps :
        (f : Packet → M Slave (Unit {0}))
        → ((p : Packet) → Preserves P (f p))
        → (o : Option Packet) → Preserves P (Machine.for_packet H Q V X f o)
    for_packet_keeps f pf none s h = h
    for_packet_keeps f pf (some p) s h = pf p s h

    pub receive_connecting_keeps :
        (t : Option PacketType) (p : Packet) → Preserves P (Machine.receive_connecting H Q V X t p)
    unfolding Machine.receive_connecting
    receive_connecting_keeps (some ka) p s h =
        Preserves-seq P on_keepalive (Machine.notify H Q V X first_ka_received)
          (manager_keeps (Manager.keepalive H Q X)) (notify_keeps first_ka_received) s h
    receive_connecting_keeps none p s h = h
    receive_connecting_keeps (some _) p s h = h

    deliver_keeps : (l : List BlockView) (s : Slave) → P s → P (Machine.deliver H Q V X l s)
    unfolding Machine.deliver
    deliver_keeps [] s h = h
    deliver_keeps (b ∷ []) s h = st.on_cmd_calls s _ h
    deliver_keeps (b ∷ c ∷ l) s h = h

    pub receive_connected_keeps :
        (t : Option PacketType) (p : Packet) → Preserves P (Machine.receive_connected H Q V X t p)
    unfolding Machine.receive_connected
    receive_connected_keeps (some hip) p s h =
        let stopped = Manager.stop_keepalive_management H Q X s.manager in
        st.on_notify _ hip_received (
          st.on_manager _ (Manager.stop H Q X stopped) (st.on_manager _ stopped (st.on_forget s h)))
    receive_connected_keeps (some cmd) p s h =
        let ack = Manager.send_cmd_ack H Q X p in
        let rest = Machine.on_manager H Q V X ack >> modify (Machine.deliver H Q V X (blocks p)) in
        Preserves-seq P on_keepalive rest (manager_keeps (Manager.keepalive H Q X))
          (Preserves-seq P (Machine.on_manager H Q V X ack)
            (modify (Machine.deliver H Q V X (blocks p))) (manager_keeps ack)
            (deliver_keeps (blocks p)))
          s h
    receive_connected_keeps (some ka) p s h = manager_keeps (Manager.keepalive H Q X) s h
    receive_connected_keeps none p s h = h
    receive_connected_keeps (some _) p s h = h

    enter_connecting_keeps : Preserves P (Machine.enter_connecting H Q V X)
    unfolding Machine.enter_connecting
    enter_connecting_keeps s h =
        let send = Manager.send_dip H Q X s.slave_id in
        Preserves-seq P (Machine.on_manager H Q V X send)
          (Machine.change_manager H Q V X
            (Manager.start_keepalive_management H Q X keepalive_timeout))
          (manager_keeps send) (λ t k. st.on_manager t _ k)
          (record s { manager = Manager.start H Q X s.manager }) (st.on_manager s _ h)

  -- The whole handlers also write the number of the packet.
  module _ (P : Slave → Type 0) (st : IsStable P)
      (on_received : (s : Slave) (n : ℕ) → P s → P (record s { received_packet_id = n })) where
    count_packet_keeps : (p : Packet) (s : Slave) → P s → P (Machine.count_packet H Q V X p s)
    unfolding Machine.count_packet
    count_packet_keeps p s h = on_received s _ h

    pub connecting_keeps :
        (first : Bool) → Preserves P (Machine.run_handler_connecting H Q V X first)
    unfolding Machine.run_handler_connecting
    connecting_keeps first =
        let receive = λ (p : Packet).
          modify (Machine.count_packet H Q V X p)
          >> Machine.receive_connecting H Q V X (type p) p in
        let body = Machine.read H Q V X >>= Machine.for_packet H Q V X receive in
        Preserves-seq P (when first (Machine.enter_connecting H Q V X))
          (body >> pure stay_curr_state)
          (Preserves-when P first (Machine.enter_connecting H Q V X) (enter_connecting_keeps P st))
          (Preserves-seq P body (pure stay_curr_state)
            (λ s h.
              for_packet_keeps P st receive
                (λ p t k. receive_connecting_keeps P st (type p) p _ (count_packet_keeps p t k)) _ _
                (read_keeps P st s h))
            (λ s h. h))

    pub connected_keeps : Preserves P (Machine.run_handler_connected H Q V X)
    unfolding Machine.run_handler_connected
    connected_keeps =
        let receive = λ (p : Packet).
          modify (Machine.count_packet H Q V X p) >> Machine.receive_connected H Q V X (type p) p in
        let body = Machine.read H Q V X >>= Machine.for_packet H Q V X receive in
        Preserves-seq P body (pure stay_curr_state)
          (λ s h.
            for_packet_keeps P st receive
              (λ p t k. receive_connected_keeps P st (type p) p _ (count_packet_keeps p t k)) _ _
              (read_keeps P st s h))
          (λ s h. h)

    receive_disconnected_keeps :
        ((s : Slave) (i : Identification) → P s → P (record s { master_id = i }))
        → (t : Option PacketType) (p : Packet)
        → Preserves P (Machine.receive_disconnected H Q V X t p)
    unfolding Machine.receive_disconnected
    receive_disconnected_keeps on_master (some hip) p s h =
        st.on_notify _ hip_received (on_master _ _ (on_received s (id p) h))
    receive_disconnected_keeps on_master none p s h = h
    receive_disconnected_keeps on_master (some _) p s h = h

    pub disconnected_keeps :
        ((s : Slave) (i : Identification) → P s → P (record s { master_id = i }))
        → (first : Bool) → Preserves P (Machine.run_handler_disconnected H Q V X first)
    unfolding Machine.run_handler_disconnected
    disconnected_keeps on_master first =
        let quiet =
          Machine.change_manager H Q V X (Manager.stop H Q X) >> Machine.clear_queues H Q V X in
        let receive = λ (p : Packet). Machine.receive_disconnected H Q V X (type p) p in
        let body = Machine.read H Q V X >>= Machine.for_packet H Q V X receive in
        Preserves-seq P (when first quiet) (body >> pure stay_curr_state)
          (Preserves-when P first quiet
            (λ s h. st.on_manager _ _ (st.on_manager s (Manager.stop H Q X s.manager) h)))
          (Preserves-seq P body (pure stay_curr_state)
            (λ s h.
              for_packet_keeps P st receive (λ p. receive_disconnected_keeps on_master (type p) p) _
                _ (read_keeps P st s h))
            (λ s h. h))
