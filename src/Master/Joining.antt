-- ===== src/Master/Joining.antt =====
-- How a master of src/master.cpp opens a session, packet by packet.
use libhdcp.Base.{
  ℕ, ◌+◌, ◌%◌, ◌^◌, ◌≤◌, ◌≡◌, refl, ap, ◌∙◌, [], ◌∷◌, ◌++◌, true, false, ok, Result, arith,
}
use libhdcp.Base.State.{modify, ◌>>◌, ◌>>=◌, >>-ok}
use libhdcp.Interfaces.{Thread, TimeoutQueue, EventMngr, Transport, Takes}
use libhdcp.Identity.{set_fields-id_blocks}
use libhdcp.Packet.Format.{hip, dip, ka, max_pl_size}
use libhdcp.Packet.Parse.{Packet, type}
use libhdcp.Packet.Make.{Identification, make_hip, make_keepalive, id_blocks}
use libhdcp.Packet.Blocks.{total_size}
use libhdcp.Packet.RoundTrip.{Carries}
use libhdcp.Packet.Constructors.{make_id-Carries, make_keepalive-Carries}
use libhdcp.Timing.{ticks, connecting_timeout, keepalive_interval, keepalive_timeout}
use libhdcp.Master.Manager.{Timer}
use libhdcp.Master.Manager
use libhdcp.Master.Machine.{Event, connected, dip_received, check_connected}
use libhdcp.Master.Machine
use libhdcp.Master.Engine
use libhdcp.Master.Session

module _ (H : Thread) (Q : TimeoutQueue Timer) (V : EventMngr Event) (X : Transport)
    (R : Takes X) where
  abbrev Master : Type 0
  Master = Machine.Master H Q V X

  abbrev Mgr : Type 0
  Mgr = Manager.Manager H Q X

  -- One packet is written, under the next number.
  abbrev wrote : Packet → Mgr → Mgr
  wrote p m = record (Manager.next_id H Q X m) { transport = (X.write p m.transport).1 }

  send_next_lem :
      (make : ℕ → Result Packet) (p : Packet) (m : Mgr)
      → make ((m.packet_id + 1) % 2 ^ 16) ≡ ok p
      → X.is_open m.transport ≡ true
      → Manager.if_open H Q X (Manager.make_next H Q X make >>= Manager.write H Q X) m
        ≡ (ok tt, wrote p m)
  unfolding Manager.make_next
  send_next_lem make p m made o = rw (o, made, R.write_ok p m.transport o)

  -- An attempt to connect: the master says who it is.
  pub attempt_sent :
      (s : Master)
      → total_size (id_blocks s.master_id) ≤ max_pl_size
      → X.is_open s.manager.transport ≡ true
      → let r = Machine.attempt H Q V X s in
        (h : Packet) × (n : ℕ) × Carries h n hip (id_blocks s.master_id)
        × (r.0 ≡ ok tt)
        × (R.sent r.1.manager.transport ≡ R.sent s.manager.transport ++ (h ∷ []))
        × (X.is_open r.1.manager.transport ≡ true)
  unfolding Machine.attempt Manager.send_hip
  attempt_sent s small opened =
      let m = s.manager in
      let n = (m.packet_id + 1) % 2 ^ 16 in
      let (h, made, carries) = (make_id-Carries n s.master_id (omega arith) small).0 in
      let send =
        Manager.if_open H Q X
          (Manager.make_next H Q X (λ k. make_hip k s.master_id) >>= Manager.write H Q X) in
      let wait = modify (λ (t : Mgr).
        let added = Q.add t.timeout_queue t.now (ticks connecting_timeout) Manager.dip_timeout_cb in
        record t { timeout_queue = added.0; dip_id = added.1 }) in
      let run : (send >> wait) m ≡ wait (wrote h m) =
        >>-ok send wait m (wrote h m)
          (send_next_lem (λ k. make_hip k s.master_id) h m made opened) in
      (
        h,
        n,
        carries,
        ap (λ x. x.0) run,
        ap (λ x. R.sent x.1.transport) run ∙ R.sent-write h m.transport opened,
        ap (λ x. X.is_open x.1.transport) run ∙ R.is_open-write h m.transport ∙ opened,
      )

  -- The identification packet of a slave that is read in the state connecting.
  dip_lem :
      (p : Packet) (n : ℕ) (i : Identification) (s : Master)
      → Carries p n dip (id_blocks i)
      → let r = Machine.receive_connecting H Q V X (type p) p s in
        (r.0 ≡ ok tt)
        × (r.1.slave_id ≡ i)
        × (V.contains dip_received r.1.events ≡ true)
        × (r.1.manager.transport ≡ s.manager.transport)
  unfolding Machine.receive_connecting Machine.set_slave_id Manager.ack_dip
  dip_lem p n i s c = rw c.has_type (
    refl,
    rw c.has_blocks (set_fields-id_blocks s.slave_id i),
    V.contains-notify dip_received s.events,
    refl,
  )

  -- The check for the event of an identification.
  connected_lem :
      (s : Master)
      → V.contains dip_received s.events ≡ true
      → let t = Engine.run_entry H Q V X (connected, check_connected) false s in
        (t.state ≡ connected) × (t.manager ≡ s.manager)
  unfolding Engine.run_entry Engine.call Engine.finish Engine.run_check_event Machine.transition
  connected_lem s h =
      let found : (V.erase dip_received s.events).0 ≡ true =
        V.erase_found dip_received s.events ∙ h in
      rw found (refl, refl)

  -- The first round in the state connected: the first keep-alive.
  begin_keepalive_lem :
      (s : Master)
      → X.is_open s.manager.transport ≡ true
      → let r = Session.begin_keepalive H Q V X s in
        (k : Packet) × (n : ℕ) × Carries k n ka []
        × (r.0 ≡ ok tt)
        × (R.sent r.1.manager.transport ≡ R.sent s.manager.transport ++ (k ∷ []))
  unfolding Manager.start_keepalive_management Manager.send_keepalive Manager.await_keepalive
  begin_keepalive_lem s opened =
      let added =
        Q.add_repeating s.manager.timeout_queue s.manager.now (ticks keepalive_interval)
          Manager.ka_mngt_timeout_cb in
      let m : Mgr = record s.manager {
        keepalive_mngt = true;
        timeout_queue = added.0;
        keepalive_mngt_id = added.1;
      } in
      let n = (m.packet_id + 1) % 2 ^ 16 in
      let (k, made, carries) = (make_keepalive-Carries n (omega arith)).0 in
      let rest =
        modify (λ (t : Mgr). record t { timeout_keepalive = ticks keepalive_timeout })
        >> modify (Manager.await_keepalive H Q X (λ ids. [])) in
      let run : (Manager.send_keepalive H Q X >> rest) m ≡ rest (wrote k m) =
        >>-ok (Manager.send_keepalive H Q X) rest m (wrote k m)
          (send_next_lem make_keepalive k m made opened) in
      (
        k,
        n,
        carries,
        ap (λ x. x.0) run,
        ap (λ x. R.sent x.1.transport) run ∙ R.sent-write k m.transport opened,
      )

  -- The master reads the answer of a slave, and its check and its next handler are called.
  pub session_lem :
      (p : Packet) (n : ℕ) (i : Identification) (s : Master)
      → Carries p n dip (id_blocks i)
      → X.is_open s.manager.transport ≡ true
      → let known = Machine.receive_connecting H Q V X (type p) p s in
        let on = Engine.run_entry H Q V X (connected, check_connected) false known.1 in
        let kept = Session.begin_keepalive H Q V X on in
        (k : Packet) × (nk : ℕ) × Carries k nk ka []
        × (known.0 ≡ ok tt)
        × (known.1.slave_id ≡ i)
        × (on.state ≡ connected)
        × (kept.0 ≡ ok tt)
        × (R.sent kept.1.manager.transport ≡ R.sent s.manager.transport ++ (k ∷ []))
  session_lem p n i s c opened =
      let known = (Machine.receive_connecting H Q V X (type p) p s).1 in
      let (known_ok, known_id, told, known_link) = dip_lem p n i s c in
      let on = Engine.run_entry H Q V X (connected, check_connected) false known in
      let (state, on_manager) = connected_lem known told in
      let link = ap (λ m. m.transport) on_manager ∙ known_link in
      let (k, nk, carries, kept_ok, kept_sent) =
        begin_keepalive_lem on (ap X.is_open link ∙ opened) in
      (
        k,
        nk,
        carries,
        known_ok,
        known_id,
        state,
        kept_ok,
        kept_sent ∙ ap (λ l. R.sent l ++ (k ∷ [])) link,
      )
