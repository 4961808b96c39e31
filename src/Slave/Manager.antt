-- ===== src/Slave/Manager.antt =====
-- The class slave::RequestManager of src/slave_request.h and src/slave_request.cpp, over the
-- libraries and the transport that it uses. `transport_` and `timeout_cb_` are never null: the
-- class Slave gives both.
use libhdcp.Base.{
  ℕ, ◌+◌, ◌%◌, ◌^◌, List, [], ◌∷◌, ◌++◌, map, Bool, true, false, Result, ok, err, application_error,
  data_too_big, out_of_range, is_empty, ltb, if◌then◌else◌,
}
use libhdcp.Base.State.{M, pure, throw, modify, when, gets, lift, ◌>>=◌, ◌>>◌}
use libhdcp.Interfaces.{Thread, TimeoutQueue, Transport}
use libhdcp.Packet.Format.{Block, BlockView, from_block, block_size, max_pl_size}
use libhdcp.Packet.Parse.{Packet, blocks}
use libhdcp.Packet.Parse
use libhdcp.Packet.Make.{Identification, make_cmd_ack, make_data, make_dip, make_keepalive_ack}
use libhdcp.Timing.{ticks}

-- The one callback that this class gives to its queue.
pub data Timer : Type 0 where
  ka_timeout_cb : Timer

-- `blocks.at(0)`
abbrev pub first_block : List BlockView → Result BlockView
first_block [] = err out_of_range
first_block (b ∷ bs) = ok b

-- `make_cmd_ack(id, packet.blocks().at(0).type, packet.id())`
abbrev pub cmd_ack_for : Packet → ℕ → Result Packet
cmd_ack_for packet id = elim (first_block (blocks packet)) [
  | ok b ↦ make_cmd_ack id b.type (Parse.id packet)
  | err e ↦ err e
]

module _ (H : Thread) (Q : TimeoutQueue Timer) (X : Transport) where
  pub record Manager : Type 0 where
    pub thread : H.Handle
    pub timeout_queue : Q.Queue
    pub keepalive_id : ℕ
    pub now : ℕ
    pub packet_id : ℕ
    pub keepalive_mngt : Bool
    pub timeout_keepalive : ℕ
    pub transport : X.Link

  -- `++packet_id_`, a uint16_t.
  abbrev pub next_id : Manager → Manager
  next_id m = record m { packet_id = (m.packet_id + 1) % 2 ^ 16 }

  -- `transport_->write(p)`
  abbrev pub write : Packet → M Manager (Unit {0})
  write p m = ((X.write p m.transport).0, record m { transport = (X.write p m.transport).1 })

  -- `transport_->write(make(++packet_id_))`
  unfoldable pub write_next : (ℕ → Result Packet) → M Manager (Unit {0})
  write_next make = do modify next_id; id ← gets (λ m. m.packet_id); p ← lift (make id); write p

  -- `if (transport_->is_open()) body`
  abbrev pub if_open : M Manager (Unit {0}) → M Manager (Unit {0})
  if_open body m = when (X.is_open m.transport) body m

  unfoldable pub send_cmd_ack : Packet → M Manager (Unit {0})
  unfolding write_next
  send_cmd_ack packet = if_open (write_next (cmd_ack_for packet))

  -- The loop of `send_data`, on the blocks left, with its variables `payload` and `payload_size`.
  unfoldable pub send_loop : List BlockView → ℕ → List BlockView → M Manager (Unit {0})
  unfolding write_next
  send_loop payload payload_size [] =
      if is_empty payload then pure tt else write_next (λ id. make_data id payload)
  send_loop payload payload_size (b ∷ blocks) =
      let joined = send_loop (payload ++ (b ∷ [])) (payload_size + block_size b) blocks in
      let alone = send_loop (b ∷ []) (block_size b) blocks in
      if ltb max_pl_size (block_size b)
      then throw (application_error data_too_big)
      else if ltb max_pl_size (payload_size + block_size b)
      then (write_next (λ id. make_data id payload) >> alone)
      else joined

  unfoldable pub send_data : List BlockView → M Manager (Unit {0})
  unfolding send_loop
  send_data blocks = send_loop [] 0 blocks

  -- `send_data(std::vector<Packet::Block>&)`: the blocks are copied as views.
  unfoldable pub send_data_of : List Block → M Manager (Unit {0})
  unfolding send_data
  send_data_of blocks = send_data (map from_block blocks)

  unfoldable pub send_dip : Identification → M Manager (Unit {0})
  unfolding write_next
  send_dip id = if_open (write_next (λ n. make_dip n id))

  -- `timeout_queue_.add(now_, timeout_keepalive_, ka_timeout_cb)`
  unfoldable pub arm : Manager → Manager
  arm m =
      let (q, id) = Q.add m.timeout_queue m.now m.timeout_keepalive ka_timeout_cb in
      record m { timeout_queue = q; keepalive_id = id }

  unfoldable pub start_keepalive_management : ℕ → Manager → Manager
  unfolding arm
  start_keepalive_management timeout m =
      arm (record m { keepalive_mngt = true; timeout_keepalive = ticks timeout })

  unfoldable pub stop_keepalive_management : Manager → Manager
  stop_keepalive_management m = record m {
    keepalive_mngt = false;
    timeout_queue = Q.erase m.timeout_queue m.keepalive_id;
  }

  -- The first half of `keepalive`: the timeout starts anew.
  unfoldable pub rearm : Manager → Manager
  unfolding arm
  rearm m =
      if m.keepalive_mngt
      then arm (record m { timeout_queue = Q.erase m.timeout_queue m.keepalive_id })
      else m

  unfoldable pub keepalive : M Manager (Unit {0})
  unfolding rearm write_next
  keepalive = do modify rearm; if_open (write_next make_keepalive_ack)

  unfoldable pub clear : Manager → Manager
  clear m = record m { timeout_queue = Q.clear m.timeout_queue; now = 0; packet_id = 0 }

  unfoldable pub start : Manager → Manager
  unfolding clear
  start m =
      if H.is_running m.thread
      then m
      else record (clear m) { keepalive_mngt = false; thread = H.start m.thread }

  unfoldable pub stop : Manager → Manager
  stop m = if H.is_running m.thread then record m { thread = H.stop m.thread } else m

  -- One round of `run`, and the calls that its queue makes: each is `ka_timeout_cb`.
  unfoldable pub run_round : Manager → List (ℕ × Timer) × Manager
  run_round m =
      if H.is_running m.thread
      then (
        (Q.expire m.now m.timeout_queue).0,
        record m { timeout_queue = (Q.expire m.now m.timeout_queue).1; now = m.now + 1 },
      )
      else ([], m)
