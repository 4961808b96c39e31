-- ===== src/Master/Manager.antt =====
-- The class master::RequestManager of src/master_request.cpp, over the libraries and the transport
-- that it uses. `transport_` and `timeout_cb_` are never null: the class Master gives both.
use libhdcp.Base.{
  ℕ, ◌+◌, ◌%◌, ◌^◌, List, [], ◌∷◌, ◌++◌, Bool, true, false, not, ◌&&◌, Option, none, some, Result,
  ok, err, application_error, request_overrun, request_not_found, invalid_cmd_ack_format, length,
  ltb, ◌==◌, if◌then◌else◌,
}
use libhdcp.Base.State.{M, pure, throw, modify, when, gets, lift, ◌>>=◌, ◌>>◌}
use libhdcp.Interfaces.{Thread, TimeoutQueue, Transport}
use libhdcp.Packet.Format.{u16_at}
use libhdcp.Packet.Parse.{Packet, blocks}
use libhdcp.Packet.Make.{Identification, make_command, make_hip, make_keepalive}
use libhdcp.Slave.Manager.{first_block}
use libhdcp.Timing.{ticks, keepalive_interval}
use libhdcp.Master.Requests.{
  Request, timeout, fulfilled, new_request, find_request, find_command, erase_request,
  erase_command, is_taken, inc_retry,
}

-- The callbacks that this class gives to its queue.
pub data Timer : Type 0 where
  cmd_timeout_cb ka_mngt_timeout_cb ka_timeout_cb dip_timeout_cb : Timer

abbrev pub max_retry : ℕ
max_retry = 3

module _ (H : Thread) (Q : TimeoutQueue Timer) (X : Transport) where
  -- `ended` tells that an exception of a callback has left `run`, which does not catch any, so that
  -- the thread makes no more rounds; what libcommon then does with the thread is not modelled.
  -- `answers` records the requests that were handed to their callbacks, the last one last.
  pub record Manager : Type 0 where
    pub thread : H.Handle
    pub ended : Bool
    pub requests : List Request
    pub answers : List Request
    pub timeout_queue : Q.Queue
    pub keepalive_mngt_id : ℕ
    pub dip_id : ℕ
    pub ka_ids : List ℕ
    pub keepalive_mngt : Bool
    pub now : ℕ
    pub packet_id : ℕ
    pub timeout_keepalive : ℕ
    pub transport : X.Link

  -- `++packet_id_`, a uint16_t.
  abbrev pub next_id : Manager → Manager
  next_id m = record m { packet_id = (m.packet_id + 1) % 2 ^ 16 }

  abbrev pub write : Packet → M Manager (Unit {0})
  write p m = ((X.write p m.transport).0, record m { transport = (X.write p m.transport).1 })

  -- `make(++packet_id_)`
  unfoldable pub make_next : (ℕ → Result Packet) → M Manager Packet
  make_next make = do modify next_id; id ← gets (λ m. m.packet_id); lift (make id)

  abbrev pub if_open : M Manager (Unit {0}) → M Manager (Unit {0})
  if_open body m = when (X.is_open m.transport) body m

  -- `if (keepalive_mngt_)`: the repeating timeout of the keep-alive starts anew.
  unfoldable pub reset_keepalive : Manager → Manager
  reset_keepalive m =
      let q = Q.erase m.timeout_queue m.keepalive_mngt_id in
      let added = Q.add_repeating q m.now (ticks keepalive_interval) ka_mngt_timeout_cb in
      if m.keepalive_mngt
      then record m { timeout_queue = added.0; keepalive_mngt_id = added.1 }
      else m

  -- `timeout_queue_.add_repeating(now_, ..., cmd_timeout_cb)`
  unfoldable pub add_timeout : ℕ → M Manager ℕ
  add_timeout delay m =
      let added = Q.add_repeating m.timeout_queue m.now delay cmd_timeout_cb in
      (ok added.1, record m { timeout_queue = added.0 })

  unfoldable pub insert_request : Request → M Manager (Unit {0})
  insert_request r m =
      if is_taken r m.requests
      then (err (application_error request_overrun), m)
      else (ok tt, record m { requests = r ∷ m.requests })

  unfoldable pub send_command : ℕ → List ℕ → ℕ → ℕ → M Manager (Unit {0})
  unfolding make_next reset_keepalive add_timeout insert_request
  send_command type content callback delay = do
    id ← add_timeout (ticks delay)
    modify reset_keepalive
    cmd ← make_next (λ n. make_command n type content)
    write cmd
    insert_request (new_request id cmd callback)

  unfoldable pub send_hip : Identification → ℕ → M Manager (Unit {0})
  unfolding make_next
  send_hip id delay = do
    if_open (make_next (λ n. make_hip n id) >>= write)
    modify (λ m.
        let added = Q.add m.timeout_queue m.now (ticks delay) dip_timeout_cb in
        record m { timeout_queue = added.0; dip_id = added.1 })

  -- A keep-alive is sent, if the transport is open.
  unfoldable pub send_keepalive : M Manager (Unit {0})
  unfolding make_next
  send_keepalive = if_open (make_next make_keepalive >>= write)

  -- `timeout_queue_.add(now_, timeout_keepalive_, ka_timeout_cb)`, kept with `old` in `ka_ids_`.
  unfoldable pub await_keepalive : (List ℕ → List ℕ) → Manager → Manager
  await_keepalive old m =
      let added = Q.add m.timeout_queue m.now m.timeout_keepalive ka_timeout_cb in
      record m { timeout_queue = added.0; ka_ids = old m.ka_ids ++ (added.1 ∷ []) }

  unfoldable pub start_keepalive_management : ℕ → ℕ → M Manager (Unit {0})
  unfolding send_keepalive await_keepalive
  start_keepalive_management interval delay = do
    modify (λ m.
        let added = Q.add_repeating m.timeout_queue m.now (ticks interval) ka_mngt_timeout_cb in
        record m { keepalive_mngt = true; timeout_queue = added.0; keepalive_mngt_id = added.1 })
    send_keepalive
    modify (λ m. record m { timeout_keepalive = ticks delay })
    modify (await_keepalive (λ ids. []))

  unfoldable pub stop_keepalive_management : Manager → Manager
  stop_keepalive_management m = record m {
    keepalive_mngt = false;
    timeout_queue = Q.erase m.timeout_queue m.keepalive_mngt_id;
  }

  abbrev pub or_throw : Option Request → M Manager Request
  or_throw none = throw (application_error request_not_found)
  or_throw (some r) = pure r

  -- The callback of `r` is called.
  abbrev pub answer : Request → Manager → Manager
  answer r m = record m { answers = m.answers ++ (r ∷ []) }

  unfoldable pub ack_command : Packet → M Manager (Unit {0})
  ack_command packet = do
    block ← lift (first_block (blocks packet))
    when (not (length block.content == 2)) (throw (application_error invalid_cmd_ack_format))
    let id = u16_at block.content 0
    found ← gets (λ m. find_command id m.requests)
    r ← or_throw found
    modify (answer (record r { status = fulfilled; ack = some packet }))
    modify (λ m. record m { timeout_queue = Q.erase m.timeout_queue r.id })
    modify (λ m. record m { requests = erase_command id m.requests })

  -- The loop of `ack_keepalive`.
  unfoldable pub erase_all : List ℕ → Q.Queue → Q.Queue
  erase_all [] q = q
  erase_all (i ∷ ids) q = erase_all ids (Q.erase q i)

  unfoldable pub ack_keepalive : Manager → Manager
  unfolding erase_all
  ack_keepalive m = record m { timeout_queue = erase_all m.ka_ids m.timeout_queue; ka_ids = [] }

  unfoldable pub ack_dip : Manager → Manager
  ack_dip m = record m { timeout_queue = Q.erase m.timeout_queue m.dip_id }

  -- `cmd_timeout_cb`, for a request that was sent fewer than `max_retry` times again.
  unfoldable pub retry_command : ℕ → Request → M Manager (Unit {0})
  unfolding reset_keepalive
  retry_command id r = do
    modify (λ m. record m { requests = inc_retry id m.requests })
    if_open (write r.command)
    modify reset_keepalive

  -- `cmd_timeout_cb`, for a request that is given up.
  unfoldable pub give_up : ℕ → Request → M Manager (Unit {0})
  give_up id r = do
    modify (answer (record r { status = timeout }))
    modify (λ m. record m { timeout_queue = Q.erase m.timeout_queue r.id })
    modify (λ m. record m { requests = erase_request id m.requests })

  unfoldable pub on_cmd_timeout : ℕ → M Manager (Unit {0})
  unfolding retry_command give_up
  on_cmd_timeout id = do
    found ← gets (λ m. find_request id m.requests)
    r ← or_throw found
    if ltb r.retry max_retry then retry_command id r else give_up id r

  unfoldable pub on_ka_mngt_timeout : M Manager (Unit {0})
  unfolding send_keepalive await_keepalive
  on_ka_mngt_timeout = do send_keepalive; modify (await_keepalive (λ ids. ids))

  unfoldable pub clear : Manager → Manager
  clear m = record m {
    requests = [];
    timeout_queue = Q.clear m.timeout_queue;
    now = 0;
    packet_id = 0;
  }

  unfoldable pub start : Manager → Manager
  unfolding clear
  start m =
      if H.is_running m.thread
      then m
      else record (clear m) { keepalive_mngt = false; thread = H.start m.thread; ended = false }

  unfoldable pub stop : Manager → Manager
  stop m = if H.is_running m.thread then record m { thread = H.stop m.thread } else m

  -- One round of `run`, and the calls that its queue makes.
  unfoldable pub run_round : Manager → List (ℕ × Timer) × Manager
  run_round m =
      if H.is_running m.thread && not m.ended
      then (
        (Q.expire m.now m.timeout_queue).0,
        record m { timeout_queue = (Q.expire m.now m.timeout_queue).1; now = m.now + 1 },
      )
      else ([], m)
