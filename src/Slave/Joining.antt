-- ===== src/Slave/Joining.antt =====
-- How a slave of src/slave.cpp takes up a session, packet by packet.
use libhdcp.Base.{
  ℕ, ◌+◌, ◌%◌, ◌^◌, ◌≤◌, ◌≡◌, refl, sym, ap, ◌∙◌, [], ◌∷◌, ◌++◌, true, false, some, ok, arith,
}
use mathlib.Core.Path.{subst}
use libhdcp.Base.State.{◌>>◌, >>-ok}
use libhdcp.Interfaces.{Thread, TimeoutQueue, EventMngr, Transport, Takes}
use libhdcp.Packet.Format.{ka, hip, dip, max_pl_size}
use libhdcp.Packet.Parse.{Packet, type}
use libhdcp.Packet.Make.{Identification, make_dip, id_blocks}
use libhdcp.Packet.Blocks.{total_size}
use libhdcp.Packet.RoundTrip.{Carries}
use libhdcp.Packet.Constructors.{make_id-Carries}
use libhdcp.Timing.{keepalive_timeout}
use libhdcp.Slave.Manager.{Timer}
use libhdcp.Slave.Manager
use libhdcp.Slave.Machine.{
  Event, connecting, connected, hip_received, first_ka_received, check_hip_received,
  check_connected,
}
use libhdcp.Slave.Machine
use libhdcp.Slave.Engine
use libhdcp.Slave.Packets.{hip_lem}
use libhdcp.Slave.Stale.{none_yet, stale_lem}
use libhdcp.Slave.Commands.{wrote, write_next_lem, keepalive_lem}

module _ (H : Thread) (Q : TimeoutQueue Timer) (V : EventMngr Event) (X : Transport)
    (R : Takes X) where
  abbrev Slave : Type 0
  Slave = Machine.Slave H Q V X

  start_transport : (m : Manager.Manager H Q X) → (Manager.start H Q X m).transport ≡ m.transport
  unfolding Manager.start Manager.clear
  start_transport m = ground arith

  -- An identification packet that is read while disconnected changes neither the manager nor what
  -- the slave says of itself.
  met_lem :
      (p : Packet) (s : Slave)
      → type p ≡ some hip
      → let t = (Machine.receive_disconnected H Q V X (type p) p s).1 in
        (t.manager ≡ s.manager) × (t.slave_id ≡ s.slave_id)
  unfolding Machine.receive_disconnected Machine.set_master_id
  met_lem p s h = rw h (refl, refl)

  -- The check for the event of an invitation.
  invited_lem :
      (s : Slave)
      → V.contains hip_received s.events ≡ true
      → let t = Engine.run_entry H Q V X (connecting, check_hip_received) false s in
        (t.state ≡ connecting) × (t.manager ≡ s.manager) × (t.slave_id ≡ s.slave_id)
  unfolding Engine.run_entry Engine.call Engine.finish Machine.run_check_hip_received
      Machine.transition
  invited_lem s h =
      let found : (V.erase hip_received s.events).0 ≡ true =
        V.erase_found hip_received s.events ∙ h in
      rw found (refl, refl, refl)

  -- The first round in the state connecting: the slave says who it is.
  enter_connecting_lem :
      (s : Slave)
      → total_size (id_blocks s.slave_id) ≤ max_pl_size
      → X.is_open s.manager.transport ≡ true
      → let r = Machine.enter_connecting H Q V X s in
        (d : Packet) × (n : ℕ) × Carries d n dip (id_blocks s.slave_id)
        × (r.0 ≡ ok tt)
        × (R.sent r.1.manager.transport ≡ R.sent s.manager.transport ++ (d ∷ []))
        × (X.is_open r.1.manager.transport ≡ true)
  unfolding Machine.enter_connecting Manager.send_dip Manager.start_keepalive_management Manager.arm
  enter_connecting_lem s small opened =
      let m = Manager.start H Q X s.manager in
      let n = (m.packet_id + 1) % 2 ^ 16 in
      let (d, made, carries) = (make_id-Carries n s.slave_id (omega arith) small).1 in
      let transport = start_transport s.manager in
      let sent =
        write_next_lem H Q X R (λ k. make_dip k s.slave_id) d m made (rw transport opened) in
      let send = Machine.on_manager H Q V X (Manager.send_dip H Q X s.slave_id) in
      let watch =
        Machine.change_manager H Q V X
          (Manager.start_keepalive_management H Q X keepalive_timeout) in
      let run : (send >> watch) (record s { manager = m })
          ≡ watch (record s { manager = wrote H Q X R d m }) =
        >>-ok send watch (record s { manager = m }) (record s { manager = wrote H Q X R d m })
          (ap (λ x. (x.0, record s { manager = x.1 })) sent) in
      (
        d,
        n,
        carries,
        rw run refl,
        rw run (rw transport (R.sent-write d s.manager.transport opened)),
        rw run (rw transport (R.is_open-write d s.manager.transport ∙ opened)),
      )

  -- A keep-alive that is read in the state connecting.
  first_keepalive_lem :
      (p : Packet) (s : Slave)
      → type p ≡ some ka
      → X.is_open s.manager.transport ≡ true
      → let r = Machine.receive_connecting H Q V X (type p) p s in
        (r.0 ≡ ok tt) × (V.contains first_ka_received r.1.events ≡ true)
  unfolding Machine.receive_connecting
  first_keepalive_lem p s is_ka opened =
      let (k, carries, kept, still, sent) = keepalive_lem H Q X R s.manager opened in
      let keep = Machine.on_manager H Q V X (Manager.keepalive H Q X) in
      let tell = Machine.notify H Q V X first_ka_received in
      let u = record s { manager = wrote H Q X R k (Manager.rearm H Q X s.manager) } in
      let run : (keep >> tell) s ≡ tell u =
        >>-ok keep tell s u (ap (λ x. (x.0, record s { manager = x.1 })) kept) in
      rw is_ka (rw run (refl, V.contains-notify first_ka_received s.events))

  -- The slave reads the invitation of a master, and its check and its next handler are called.
  pub join_lem :
      (p : Packet) (n : ℕ) (i : Identification) (s : Slave)
      → Carries p n hip (id_blocks i)
      → total_size (id_blocks s.slave_id) ≤ max_pl_size
      → X.is_open s.manager.transport ≡ true
      → let met = Machine.receive_disconnected H Q V X (type p) p s in
        let invited = Engine.run_entry H Q V X (connecting, check_hip_received) false met.1 in
        let joined = Machine.enter_connecting H Q V X invited in
        (d : Packet) × (nd : ℕ) × Carries d nd dip (id_blocks s.slave_id)
        × (met.1.master_id ≡ i)
        × (invited.state ≡ connecting)
        × (joined.0 ≡ ok tt)
        × (R.sent joined.1.manager.transport ≡ R.sent s.manager.transport ++ (d ∷ []))
        × (X.is_open joined.1.manager.transport ≡ true)
  join_lem p n i s c small opened =
      let met = (Machine.receive_disconnected H Q V X (type p) p s).1 in
      let (knows, number, told) = hip_lem H Q V X p n i s c in
      let (met_manager, met_id) = met_lem p s c.has_type in
      let invited = Engine.run_entry H Q V X (connecting, check_hip_received) false met in
      let (state, invited_manager, invited_id) = invited_lem met told in
      let same_id = invited_id ∙ met_id in
      let same_link = ap (λ m. m.transport) (invited_manager ∙ met_manager) in
      let (d, nd, carries, joined_ok, joined_sent, joined_open) =
        enter_connecting_lem invited
          (subst (λ j. total_size (id_blocks j) ≤ max_pl_size) (sym same_id) small)
          (ap X.is_open same_link ∙ opened) in
      (
        d,
        nd,
        subst (λ j. Carries d nd dip (id_blocks j)) same_id carries,
        knows,
        state,
        joined_ok,
        joined_sent ∙ ap (λ l. R.sent l ++ (d ∷ [])) same_link,
        joined_open,
      )

  -- The slave reads the first keep-alive, and its check is called.
  pub ready_lem :
      (p : Packet) (s : Slave)
      → type p ≡ some ka
      → X.is_open s.manager.transport ≡ true
      → let heard = Machine.receive_connecting H Q V X (type p) p s in
        (heard.0 ≡ ok tt)
        × ((Engine.run_entry H Q V X (connected, check_connected) false heard.1).state ≡ connected)
  ready_lem p s is_ka opened =
      let (done, told) = first_keepalive_lem p s is_ka opened in
      let heard = (Machine.receive_connecting H Q V X (type p) p s).1 in
      (done, (stale_lem H Q V X heard heard false told none_yet).0)
