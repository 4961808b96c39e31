-- ===== src/Slave/Packets.antt =====
-- What a slave of src/slave.cpp does with single packets.
use libhdcp.Base.{ℕ, ◌≡◌, true, false, some, arith}
use libhdcp.Base.State.{M, modify, pure, ◌>>=◌, ◌>>◌, after_seq}
use libhdcp.Interfaces.{Thread, TimeoutQueue, EventMngr, Transport}
use libhdcp.Identity.{set_fields-id_blocks}
use libhdcp.Packet.Format.{hip}
use libhdcp.Packet.Parse.{Packet, id, type}
use libhdcp.Packet.Make.{Identification, id_blocks}
use libhdcp.Packet.RoundTrip.{Carries}
use libhdcp.Slave.Manager.{Timer}
use libhdcp.Slave.Machine
use libhdcp.Slave.Handlers

module _ (H : Thread) (Q : TimeoutQueue Timer) (V : EventMngr Machine.Event) (X : Transport) where
  abbrev Slave : Type 0
  Slave = Machine.Slave H Q V X

  id-IsStable : (n : ℕ) → Handlers.IsStable H Q V X (λ s. s.received_packet_id ≡ n)
  id-IsStable n = record {
    on_manager = λ t m h. h;
    on_notify = λ t e h. h;
    on_cmd_calls = λ t l h. h;
    on_errc = λ t e h. h;
    on_forget = λ t h. h;
  }

  count_packet_lem :
      (p : Packet) (s : Slave) → (Machine.count_packet H Q V X p s).received_packet_id ≡ id p
  unfolding Machine.count_packet
  count_packet_lem p s = ground arith

  -- After a packet is read while connecting or connected, its number is the last one received,
  -- also when packets were lost before it, and whatever the packet makes the slave do.
  pub received_lem :
      (p : Packet) (s : Slave)
      → (X.read (Machine.link H Q V X s)).0 ≡ some p
      → ((Machine.run_handler_connecting H Q V X false s).1.received_packet_id ≡ id p)
        × ((Machine.run_handler_connected H Q V X s).1.received_packet_id ≡ id p)
  unfolding Machine.run_handler_connecting Machine.run_handler_connected
  received_lem p s h =
      let P = λ (t : Slave). t.received_packet_id ≡ id p in
      let t = Machine.set_link H Q V X (X.read (Machine.link H Q V X s)).1 s in
      let counted = Machine.count_packet H Q V X p t in
      let receive = λ (f : Packet → M Slave (Unit {0})).
        Machine.read H Q V X
        >>= Machine.for_packet H Q V X (λ q. modify (Machine.count_packet H Q V X q) >> f q) in
      (
        after_seq P (receive (λ q. Machine.receive_connecting H Q V X (type q) q))
            (pure Machine.stay_curr_state) s
            (rw h (
              Handlers.receive_connecting_keeps H Q V X P (id-IsStable (id p)) (type p) p counted
                (count_packet_lem p t)))
            (λ u k. k),
        after_seq P (receive (λ q. Machine.receive_connected H Q V X (type q) q))
            (pure Machine.stay_curr_state) s
            (rw h (
              Handlers.receive_connected_keeps H Q V X P (id-IsStable (id p)) (type p) p counted
                (count_packet_lem p t)))
            (λ u k. k),
      )

  -- The identification packet of a master is taken over field by field, whatever was known
  -- before, its number is kept, and the event is notified.
  pub hip_lem :
      (p : Packet) (n : ℕ) (i : Identification) (s : Slave)
      → Carries p n hip (id_blocks i)
      → let t = (Machine.receive_disconnected H Q V X (type p) p s).1 in
        (t.master_id ≡ i)
        × (t.received_packet_id ≡ n)
        × (V.contains Machine.hip_received t.events ≡ true)
  unfolding Machine.receive_disconnected
  hip_lem p n i s c = rw c.has_type (
    rw c.has_blocks (set_fields-id_blocks s.master_id i),
    c.has_id,
    V.contains-notify Machine.hip_received s.events,
  )
