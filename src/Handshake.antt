-- ===== src/Handshake.antt =====
-- How a session begins: the packets that the master of src/master.cpp and the slave of
-- src/slave.cpp exchange, over a link that brings each packet as a copy.
use libhdcp.Base.{◌≤◌, ◌≡◌, ap, ◌∙◌, append_assoc, [], ◌∷◌, ◌++◌, true, false, ok}
use libhdcp.Interfaces.{Thread, TimeoutQueue, EventMngr, Transport, Takes}
use libhdcp.Packet.Format.{hip, dip, ka, max_pl_size}
use libhdcp.Packet.Parse.{Packet, type}
use libhdcp.Packet.Make.{id_blocks}
use libhdcp.Packet.Blocks.{total_size}
use libhdcp.Packet.RoundTrip.{IsWhole}
use libhdcp.Tcp.Framing.{Same, Same-Carries}
use libhdcp.Master.Manager.{Timer}
use libhdcp.Master.Machine
use libhdcp.Master.Engine
use libhdcp.Master.Session.{begin_keepalive}
use libhdcp.Master.Joining.{attempt_sent, session_lem}
use libhdcp.Slave.Manager as SlaveManager
use libhdcp.Slave.Machine as SlaveMachine
use libhdcp.Slave.Engine as SlaveEngine
use libhdcp.Slave.Joining.{join_lem, ready_lem}

module _ (H : Thread) (Q : TimeoutQueue Timer) (V : EventMngr Machine.Event) (X : Transport)
    (R : Takes X) (H' : Thread) (Q' : TimeoutQueue SlaveManager.Timer)
    (V' : EventMngr SlaveMachine.Event) (X' : Transport) (R' : Takes X') (carry : Packet → Packet)
    (carried : (p : Packet) → IsWhole p → Same p (carry p)) where
  -- A master and a slave whose identifications fit a packet, over open links that take every
  -- packet and bring copies of whole packets. The master's attempt sends one packet `h`; the slave
  -- that reads it knows the master, is connecting after its check, and sends one packet `d`; the
  -- master that reads it knows the slave, is connected after its check, and sends one packet `k`;
  -- and the slave that reads it is connected after its check.
  pub handshake_lem :
      (s : Machine.Master H Q V X) (t : SlaveMachine.Slave H' Q' V' X')
      → total_size (id_blocks s.master_id) ≤ max_pl_size
      → total_size (id_blocks t.slave_id) ≤ max_pl_size
      → X.is_open s.manager.transport ≡ true
      → X'.is_open t.manager.transport ≡ true
      → let asked = Machine.attempt H Q V X s in
        (h d k : Packet) × (asked.0 ≡ ok tt)
        × (R.sent asked.1.manager.transport ≡ R.sent s.manager.transport ++ (h ∷ []))
        × (let met = SlaveMachine.receive_disconnected H' Q' V' X' (type (carry h)) (carry h) t in
            let invited =
              SlaveEngine.run_entry H' Q' V' X'
                (SlaveMachine.connecting, SlaveMachine.check_hip_received)
                false
                met.1 in
            let joined = SlaveMachine.enter_connecting H' Q' V' X' invited in
            let known = Machine.receive_connecting H Q V X (type (carry d)) (carry d) asked.1 in
            let on =
              Engine.run_entry H Q V X (Machine.connected, Machine.check_connected) false known.1 in
            let kept = begin_keepalive H Q V X on in
            let heard =
              SlaveMachine.receive_connecting H' Q' V' X' (type (carry k)) (carry k) joined.1 in
            let ready =
              SlaveEngine.run_entry H' Q' V' X'
                (SlaveMachine.connected, SlaveMachine.check_connected)
                false
                heard.1 in
            (met.1.master_id ≡ s.master_id)
            × (invited.state ≡ SlaveMachine.connecting)
            × (joined.0 ≡ ok tt)
            × (R'.sent joined.1.manager.transport ≡ R'.sent t.manager.transport ++ (d ∷ []))
            × (known.0 ≡ ok tt)
            × (known.1.slave_id ≡ t.slave_id)
            × (on.state ≡ Machine.connected)
            × (kept.0 ≡ ok tt)
            × (R.sent kept.1.manager.transport ≡ R.sent s.manager.transport ++ (h ∷ k ∷ []))
            × (heard.0 ≡ ok tt)
            × (ready.state ≡ SlaveMachine.connected))
  handshake_lem s t small small' opened opened' =
      let (h, n, says, asked_ok, asked_sent, asked_open) = attempt_sent H Q V X R s small opened in
      let asked = (Machine.attempt H Q V X s).1 in
      let brought_h =
        Same-Carries h (carry h) n hip (id_blocks s.master_id) (carried h says.is_whole) says in
      let (d, nd, answers, knows, invited, joined_ok, joined_sent, joined_open) =
        join_lem H' Q' V' X' R' (carry h) n s.master_id t brought_h small' opened' in
      let brought_d =
        Same-Carries d (carry d) nd dip (id_blocks t.slave_id) (carried d answers.is_whole)
          answers in
      let (k, nk, keeps, known_ok, known_id, on, kept_ok, kept_sent) =
        session_lem H Q V X R (carry d) nd t.slave_id asked brought_d asked_open in
      let brought_k = Same-Carries k (carry k) nk ka [] (carried k keeps.is_whole) keeps in
      let (heard_ok, ready) = ready_lem H' Q' V' X' R' (carry k) _ brought_k.has_type joined_open in
      let both =
        ap (λ q. q ++ (k ∷ [])) asked_sent
        ∙ append_assoc (R.sent s.manager.transport) (h ∷ []) (k ∷ []) in
      (
        h,
        d,
        k,
        asked_ok,
        asked_sent,
        (
          knows,
          invited,
          joined_ok,
          joined_sent,
          known_ok,
          known_id,
          on,
          kept_ok,
          kept_sent ∙ both,
          heard_ok,
          ready,
        ),
      )
