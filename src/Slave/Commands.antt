-- ===== src/Slave/Commands.antt =====
-- How a connected slave of src/slave.cpp serves a command.
use libhdcp.Base.{
  ℕ, ◌+◌, ◌%◌, ◌^◌, ◌≡◌, refl, ap, ◌∙◌, List, [], ◌∷◌, ◌++◌, true, some, Result, ok, arith,
  append_assoc,
}
use libhdcp.Base.State.{modify, ◌>>◌, >>-ok}
use libhdcp.Interfaces.{Thread, TimeoutQueue, EventMngr, Transport, Takes}
use libhdcp.Packet.Format.{BlockView, cmd, cmd_ack, ka_ack, IsU16, le16}
use libhdcp.Packet.Parse.{Packet, id, type, blocks}
use libhdcp.Packet.Make.{make_keepalive_ack}
use libhdcp.Packet.RoundTrip.{Carries}
use libhdcp.Packet.Constructors.{make_keepalive-Carries, make_cmd_ack-Carries}
use libhdcp.Slave.Manager.{Timer, Manager, cmd_ack_for}
use libhdcp.Slave.Manager
use libhdcp.Slave.Machine.{Event}
use libhdcp.Slave.Machine

module _ (H : Thread) (Q : TimeoutQueue Timer) (X : Transport) (R : Takes X) where
  abbrev Mgr : Type 0
  Mgr = Manager H Q X

  -- One packet is written, under the next number.
  abbrev pub wrote : Packet → Mgr → Mgr
  wrote p m = record (Manager.next_id H Q X m) { transport = (X.write p m.transport).1 }

  pub write_next_lem :
      (make : ℕ → Result Packet) (p : Packet) (m : Mgr)
      → make ((m.packet_id + 1) % 2 ^ 16) ≡ ok p
      → X.is_open m.transport ≡ true
      → Manager.if_open H Q X (Manager.write_next H Q X make) m ≡ (ok tt, wrote p m)
  unfolding Manager.write_next
  write_next_lem make p m made o = rw (o, made, R.write_ok p m.transport o)

  -- Only the timeout starts anew.
  rearm_lem :
      (m : Mgr)
      → ((Manager.rearm H Q X m).transport ≡ m.transport)
        × ((Manager.rearm H Q X m).packet_id ≡ m.packet_id)
  unfolding Manager.rearm Manager.arm
  rearm_lem m = ground arith

  pub keepalive_lem :
      (m : Mgr)
      → X.is_open m.transport ≡ true
      → (p : Packet) × Carries p ((m.packet_id + 1) % 2 ^ 16) ka_ack []
        × (Manager.keepalive H Q X m ≡ (ok tt, wrote p (Manager.rearm H Q X m)))
        × (X.is_open (wrote p (Manager.rearm H Q X m)).transport ≡ true)
        × (R.sent (wrote p (Manager.rearm H Q X m)).transport ≡ R.sent m.transport ++ (p ∷ []))
  unfolding Manager.keepalive
  keepalive_lem m o =
      let (p, made, c) = (make_keepalive-Carries ((m.packet_id + 1) % 2 ^ 16) (omega arith)).1 in
      let (transport, number) = rearm_lem m in
      (
        p,
        c,
        write_next_lem make_keepalive_ack p (Manager.rearm H Q X m) (rw number made)
            (rw transport o),
        rw transport (R.is_open-write p m.transport ∙ o),
        rw transport (R.sent-write p m.transport o),
      )

  pub send_cmd_ack_lem :
      (c : Packet) (b : BlockView) (rest : List BlockView) (m : Mgr)
      → blocks c ≡ b ∷ rest
      → IsU16 b.type
      → IsU16 (id c)
      → X.is_open m.transport ≡ true
      → (p : Packet) × Carries p
          ((m.packet_id + 1) % 2 ^ 16)
          cmd_ack
          (record { type = b.type; content = le16 (id c) } ∷ [])
        × (Manager.send_cmd_ack H Q X c m ≡ (ok tt, wrote p m))
        × (R.sent (wrote p m).transport ≡ R.sent m.transport ++ (p ∷ []))
  unfolding Manager.send_cmd_ack
  send_cmd_ack_lem c b rest m first t n o =
      let (p, made, carried, same) =
        make_cmd_ack-Carries ((m.packet_id + 1) % 2 ^ 16) b.type (id c) (omega arith) t n in
      (
        p,
        carried,
        write_next_lem (cmd_ack_for c) p m (rw (cmd_ack_for, first) made) o,
        R.sent-write p m.transport o,
      )

module _ (H : Thread) (Q : TimeoutQueue Timer) (V : EventMngr Event) (X : Transport)
    (R : Takes X) where
  -- A command with exactly one block, read by a connected slave over an open transport: a
  -- keep-alive acknowledgement and then a command acknowledgement, which has the type of the block
  -- and holds the number of the command, are sent under the next two numbers, and the block is
  -- handed to the callback once.
  pub command_lem :
      (c : Packet) (b : BlockView) (s : Machine.Slave H Q V X)
      → type c ≡ some cmd
      → blocks c ≡ b ∷ []
      → IsU16 b.type
      → IsU16 (id c)
      → X.is_open s.manager.transport ≡ true
      → let r = Machine.receive_connected H Q V X (type c) c s in
        (p q : Packet) × Carries p ((s.manager.packet_id + 1) % 2 ^ 16) ka_ack []
        × Carries q
            ((s.manager.packet_id + 2) % 2 ^ 16)
            cmd_ack
            (record { type = b.type; content = le16 (id c) } ∷ [])
        × (r.0 ≡ ok tt)
        × (R.sent r.1.manager.transport ≡ R.sent s.manager.transport ++ (p ∷ q ∷ []))
        × (r.1.cmd_calls ≡ s.cmd_calls ++ (b ∷ []))
  unfolding Machine.receive_connected Machine.deliver
  command_lem c b s is_cmd one t n o =
      let (p, p_carries, kept, opened, p_sent) = keepalive_lem H Q X R s.manager o in
      let m = wrote H Q X R p (Manager.rearm H Q X s.manager) in
      let (q, q_carries, acked, q_sent) = send_cmd_ack_lem H Q X R c b [] m one t n opened in
      let ack = Machine.on_manager H Q V X (Manager.send_cmd_ack H Q X c) in
      let rest = modify (Machine.deliver H Q V X (blocks c)) in
      let acked_slave = record s { manager = wrote H Q X R q m } in
      let run : Machine.receive_connected H Q V X (type c) c s
          ≡ (ok tt, Machine.deliver H Q V X (blocks c) acked_slave) =
        rw is_cmd (
          >>-ok (Machine.on_manager H Q V X (Manager.keepalive H Q X)) (ack >> rest) s
            (record s { manager = m }) (ap (λ x. (x.0, record s { manager = x.1 })) kept)
          ∙ >>-ok ack rest (record s { manager = m }) acked_slave
              (ap (λ x. (x.0, record s { manager = x.1 })) acked)) in
      let number : (m.packet_id + 1) % 2 ^ 16 ≡ (s.manager.packet_id + 2) % 2 ^ 16 =
        omega (arith, (rearm_lem H Q X R s.manager).1) in
      rw (run, one)
        (
          p,
          q,
          p_carries,
          rw number at q_carries,
          refl,
          q_sent ∙ rw p_sent (append_assoc (R.sent s.manager.transport) (p ∷ []) (q ∷ [])),
          refl,
        )
