-- ===== src/Tcp/Life.antt =====
-- The life of a server of src/tcp_server.cpp as a relation between states: its operations end in any
-- order and in any way, while other threads write packets and take those that were read.
use libhdcp.Base.{ℕ, List, false, inl, inr, Bool-cases, Option-cases, get_elem?, is_empty}
use libhdcp.Interfaces.{Thread}
use libhdcp.Packet.Parse.{Packet}
use libhdcp.Queues.{PacketQueue}
use libhdcp.Tcp.Asio.{Asio, Code, posted, remove}
use libhdcp.Tcp.Endpoint
use libhdcp.Tcp.Server
use libhdcp.Tcp.Writing.{Ordered}
use libhdcp.Tcp.Writing
use libhdcp.Tcp.Stable
use libhdcp.Tcp.Turns

module _ (H : Thread) (Q : PacketQueue) (A : Asio) where
  abbrev State : Type 0
  State = Server.Server H Q A

  -- The thread calls a handler, or finds that there is none left; a packet is written; a packet that
  -- was read is taken.
  pub data Turn (s : State) : State → Type 0 where
    ended : (i : ℕ) (code : Code) (bytes : List ℕ) → Turn s (Server.run_one H Q A i code bytes s)
    ran_out : Turn s (Server.run_out H Q A s)
    write_called : (p : Packet) → Turn s (Server.write H Q A p s).1
    read_called : Turn s (record s { read_queue = (Q.try_dequeue s.read_queue).1 })

  pub data Runs (s : State) : State → Type 0 where
    none_yet : Runs s s
    after : {t u : State} → Runs s t → Turn t u → Runs s u

  run_one_keeps :
      (i : ℕ) (code : Code) (bytes : List ℕ) (s : State)
      → Ordered H Q A s
      → Ordered H Q A (Server.run_one H Q A i code bytes s)
  unfolding Server.run_one Server.run_operation
  run_one_keeps i code bytes s h = elim (Option-cases (get_elem? s.operations i)) [
    | inl missing ↦ rw missing h
    | inr (o, found) ↦ rw found (
        Stable.if_keeps H Q A (Ordered H Q A) (Turns.Ordered-IsStable H Q A) s.looping
          (Server.after_handler H Q A
            (Server.complete H Q A o code bytes (record s { operations = remove i s.operations })))
          s
          (Stable.after_handler_keeps H Q A (Ordered H Q A) (Turns.Ordered-IsStable H Q A) _
            (Turns.complete_keeps H Q A i o code bytes s found h))
          h)
  ]

  Turn-Ordered : (s t : State) → Turn s t → Ordered H Q A s → Ordered H Q A t
  unfolding Server.run_out Server.write
  Turn-Ordered s _ (ended i code bytes) h = run_one_keeps i code bytes s h
  Turn-Ordered s _ ran_out h =
      Stable.if_keeps H Q A (Ordered H Q A) (Turns.Ordered-IsStable H Q A) (is_empty s.operations)
        (record s { looping = false }) s h h
  Turn-Ordered s _ (write_called p) h = elim (Bool-cases (Endpoint.is_open H Q A s)) [
    | inl opened ↦ rw opened (Writing.launch_keeps H Q A (posted p) s tt h)
    | inr closed ↦ rw closed h
  ]
  Turn-Ordered s _ read_called h = h

  -- Whatever the turns, the server has at most one write under way, of the packet that it keeps for
  -- it, and none while its flag is off; and the packets that it took for writing are those that
  -- writes were started on, in order, and then those that wait in the queue.
  pub Runs-Ordered : (s t : State) → Runs s t → Ordered H Q A s → Ordered H Q A t
  Runs-Ordered s _ none_yet h = h
  Runs-Ordered s u (after {t} runs turn) h = Turn-Ordered t u turn (Runs-Ordered s t runs h)
