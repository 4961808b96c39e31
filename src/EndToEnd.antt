-- ===== src/EndToEnd.antt =====
-- A command on its way: from the master of src/master.cpp to the slave of src/slave.cpp and back,
-- over a link that brings each packet as a copy.
use libhdcp.Base.{
  ℕ, ◌+◌, ◌%◌, ◌^◌, ◌≤◌, ◌≡◌, ◌≢◌, refl, ap, ◌∙◌, List, [], ◌∷◌, ◌++◌, true, none, some, ok, arith,
  length,
}
use libhdcp.Interfaces.{Thread, TimeoutQueue, EventMngr, Transport, Takes}
use libhdcp.Packet.Format.{BlockView, cmd, cmd_ack, ka_ack, bheader_size, max_pl_size, IsU16, le16}
use libhdcp.Packet.Parse.{Packet, id, type, payload, header_view}
use libhdcp.Packet.RoundTrip.{Carries, IsWhole}
use libhdcp.Packet.Layout.{u16_at-le16}
use libhdcp.Timing.{command_timeout}
use libhdcp.Tcp.Endpoint.{put_header, put_payload}
use libhdcp.Tcp.Framing.{Same, Same-Carries, put_header-view, put_payload-Same}
use libhdcp.Master.Requests.{Request, new_request, fulfilled, find_request, find_command}
use libhdcp.Master.Pending.{Distinct}
use libhdcp.Master.Manager.{Timer}
use libhdcp.Master.Manager
use libhdcp.Master.Machine.{Event, connected}
use libhdcp.Master.Machine
use libhdcp.Master.Engine
use libhdcp.Master.Commands.{send_command-accepted}
use libhdcp.Master.Writing.{next_timer, next_number}
use libhdcp.Master.Answers.{ack_command_lem}
use libhdcp.Slave.Manager as SlaveManager
use libhdcp.Slave.Machine as SlaveMachine
use libhdcp.Slave.Commands.{command_lem}

-- The packet that a TCP reader makes in its array, of the header and the payload that were sent.
abbrev pub copied : Packet → Packet → Packet
copied r p = put_payload (payload p) (put_header (header_view p) r)

pub copied-Same : (r p : Packet) → IsWhole p → Same p (copied r p)
copied-Same r p w = put_payload-Same p (put_header (header_view p) r) w (put_header-view p r w)

module _ (H : Thread) (Q : TimeoutQueue Timer) (V : EventMngr Event) (X : Transport) where
  abbrev Master : Type 0
  Master = Machine.Master H Q V X

  -- The keep-alive acknowledgement that precedes the answer leaves requests and answers.
  first_ack_lem :
      (k : Packet) (s : Master)
      → type k ≡ some ka_ack
      → Machine.receive_connected H Q V X (type k) k s
        ≡ (ok tt, record s { manager = Manager.ack_keepalive H Q X s.manager })
  unfolding Machine.receive_connected
  first_ack_lem k s t = ap (λ o. Machine.receive_connected H Q V X o k s) t

  send_lem :
      (type : ℕ) (content : List ℕ) (callback : ℕ) (s : Master)
      → s.state ≡ connected
      → Engine.send_command H Q V X type content callback s
        ≡ Machine.on_manager H Q V X
            (Manager.send_command H Q X type content callback command_timeout)
            s
  unfolding Engine.send_command
  send_lem type content callback s h = rw h refl

  answer_lem :
      (a : Packet) (n number : ℕ) (t : ℕ) (r : Request) (s : Master)
      → Carries a n cmd_ack (record { type = t; content = le16 number } ∷ [])
      → IsU16 number
      → find_command number s.manager.requests ≡ some r
      → Distinct s.manager.requests
      → let done = Machine.receive_connected H Q V X (type a) a s in
        (done.0 ≡ ok tt)
        × (done.1.manager.answers
            ≡ s.manager.answers ++ (record r { status = fulfilled; ack = some a } ∷ []))
        × (Q.pending done.1.manager.timeout_queue r.id ≡ none)
  unfolding Machine.receive_connected
  answer_lem a n number t r s c u found d =
      let (done, answers, gone, _) =
        ack_command_lem H Q X a s.manager (record { type = t; content = le16 number }) [] r
          c.has_blocks refl
          (ap (λ i. find_command i s.manager.requests) (u16_at-le16 number [] u) ∙ found) d in
      rw c.has_type (done, answers, gone)

module _ (H : Thread) (Q : TimeoutQueue Timer) (V : EventMngr Event) (X : Transport) (R : Takes X)
    (H' : Thread) (Q' : TimeoutQueue SlaveManager.Timer) (V' : EventMngr SlaveMachine.Event)
    (X' : Transport) (R' : Takes X') (carry : Packet → Packet)
    (carried : (p : Packet) → IsWhole p → Same p (carry p)) where
  -- A connected master sends a command, whose type is a uint16_t and whose data fit a packet, over an
  -- open link that takes every packet and brings copies of whole packets, to a connected slave, whose
  -- link is open. The pending requests have unique keys, neither the next number nor the new timer
  -- belongs to one of them, and the timer is not that of the keep-alive. Then the slave hands the type and the data to its callback once
  -- and sends two packets back, and when the master has received these, the request is answered
  -- once, fulfilled and with the second packet, and its timer is gone.
  pub command_round_lem :
      (type_ : ℕ) (content : List ℕ) (callback : ℕ) (s : Machine.Master H Q V X)
      (t : SlaveMachine.Slave H' Q' V' X')
      → IsU16 type_
      → length content + bheader_size ≤ max_pl_size
      → s.state ≡ connected
      → X.is_open s.manager.transport ≡ true
      → X'.is_open t.manager.transport ≡ true
      → next_timer H Q X command_timeout s.manager ≢ s.manager.keepalive_mngt_id
      → Distinct s.manager.requests
      → find_request (next_timer H Q X command_timeout s.manager) s.manager.requests ≡ none
      → find_command (next_number H Q X s.manager) s.manager.requests ≡ none
      → let i = next_timer H Q X command_timeout s.manager in
        let asked = Engine.send_command H Q V X type_ content callback s in
        (c k a : Packet) × (asked.0 ≡ ok tt)
        × (R.sent asked.1.manager.transport ≡ R.sent s.manager.transport ++ (c ∷ []))
        × (let served = SlaveMachine.receive_connected H' Q' V' X' (type (carry c)) (carry c) t in
            (served.0 ≡ ok tt)
            × (served.1.cmd_calls
                ≡ t.cmd_calls ++ (record { type = type_; content = content } ∷ []))
            × (R'.sent served.1.manager.transport ≡ R'.sent t.manager.transport ++ (k ∷ a ∷ [])))
        × (let kept = Machine.receive_connected H Q V X (type (carry k)) (carry k) asked.1 in
            let done = Machine.receive_connected H Q V X (type (carry a)) (carry a) kept.1 in
            (kept.0 ≡ ok tt)
            × (done.0 ≡ ok tt)
            × (done.1.manager.answers
                ≡ s.manager.answers
                  ++ (record (new_request i c callback) { status = fulfilled; ack = some (carry a) }
                      ∷ []))
            × (Q.pending done.1.manager.timeout_queue i ≡ none))
  unfolding Manager.ack_keepalive
  command_round_lem type_ content callback s t u small on opened listening other d free_timer
        free_number =
      let block : BlockView = record { type = type_; content = content } in
      let (c, c_carries, sent, written, by_number, by_timer, armed, distinct, answers) =
        send_command-accepted H Q X R type_ content callback command_timeout s.manager u small
          opened other d free_timer free_number in
      let at_slave =
        Same-Carries c (carry c) (next_number H Q X s.manager) cmd (block ∷ [])
          (carried c c_carries.is_whole) c_carries in
      let (k, a, k_carries, a_carries, served, replied, called) =
        command_lem H' Q' V' X' R' (carry c) block t at_slave.has_type at_slave.has_blocks u
          (omega (arith, at_slave.has_id)) listening in
      let out = (Manager.send_command H Q X type_ content callback command_timeout s.manager).1 in
      let waiting = record s { manager = out } in
      let asked : Engine.send_command H Q V X type_ content callback s ≡ (ok tt, waiting) =
        send_lem H Q V X type_ content callback s on ∙ ap (λ r. (r, waiting)) sent in
      let first =
        first_ack_lem H Q V X (carry k) waiting
          (Same-Carries k (carry k) ((t.manager.packet_id + 1) % 2 ^ 16) ka_ack []
            (carried k k_carries.is_whole) k_carries).has_type in
      let number = at_slave.has_id in
      let reply : BlockView = record { type = type_; content = le16 (id (carry c)) } in
      let request = new_request (next_timer H Q X command_timeout s.manager) c callback in
      let answer =
        answer_lem H Q V X (carry a) ((t.manager.packet_id + 2) % 2 ^ 16) (id (carry c)) type_
          request (record waiting { manager = Manager.ack_keepalive H Q X out })
          (Same-Carries a (carry a) ((t.manager.packet_id + 2) % 2 ^ 16) cmd_ack (reply ∷ [])
            (carried a a_carries.is_whole) a_carries)
          (omega (arith, number)) (ap (λ n. find_command n out.requests) number ∙ by_number)
          distinct in
      let (done, answered, gone) = answer in
      rw asked (
        c,
        k,
        a,
        refl,
        written,
        (served, called, replied),
        rw first (
          refl,
          done,
          answered
              ∙ ap (λ q. q ++ (record request { status = fulfilled; ack = some (carry a) } ∷ []))
                  answers,
          gone,
        ),
      )
