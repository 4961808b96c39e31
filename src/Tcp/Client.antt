-- ===== src/Tcp/Client.antt =====
-- The class Client of src/tcp_client.h and src/tcp_client.cpp.
use libhdcp.Base.{
  ℕ, true, false, not, Result, ok, err, List, [], ◌∷◌, ◌++◌, Option, some, none, no_error,
  asio_code, Exception, packet_error, transport_error, write_queue_full, write_while_closed,
  asio_error, ltb, ◌==◌, if◌then◌else◌, get_elem?, is_empty,
}
use libhdcp.Base.State.{M, pure, throw, modify, when, ◌>>=◌, ◌>>◌}
use libhdcp.Interfaces.{Thread}
use libhdcp.Packet.Parse.{Packet, header}
use libhdcp.Queues.{PacketQueue}
use libhdcp.Tcp.Asio.{
  Asio, Code, success, failure, Operation, accepting, reading_header, reading_payload, writing,
  posted, remove,
}
use libhdcp.Tcp.Endpoint.{put_header, put_payload}
use libhdcp.Tcp.Endpoint

module _ (H : Thread) (Q : PacketQueue) (A : Asio) where
  abbrev pub Client : Type 0
  Client = Endpoint.Endpoint H Q A

  unfoldable pub write : Packet → M Client (Unit {0})
  write p s =
      if Endpoint.is_open H Q A s
      then (ok tt, Endpoint.launch H Q A (posted p) s)
      else (err (transport_error write_while_closed), s)

  unfoldable pub close : M Client (Unit {0})
  close s =
      if Endpoint.is_open H Q A s
      then (do Endpoint.shutdown H Q A; Endpoint.close_socket H Q A) s
      else (ok tt, s)

  unfoldable pub open_transport : M Client (Unit {0})
  open_transport s = if Endpoint.is_open H Q A s then (ok tt, s) else Endpoint.connect H Q A s

  unfoldable pub read_header : Client → Client
  read_header s = Endpoint.launch H Q A reading_header s

  unfoldable pub read_payload : M Client (Unit {0})
  read_payload = do
    Endpoint.parse_header H Q A
    modify (λ s. Endpoint.launch H Q A (reading_payload (header s.read_packet).len) s)

  -- What the three handlers do with an error.
  unfoldable pub failed : ℕ → M Client (Unit {0}) → M Client (Unit {0})
  failed n at_eof =
      if n == A.operation_aborted
      then pure tt
      else if n == A.eof
      then at_eof
      else throw (asio_error n)

  -- The handler of `read_header`.
  unfoldable pub header_read : Code → M Client (Unit {0})
  unfolding close read_payload failed
  header_read success = do modify (Endpoint.set_errc H Q A no_error); read_payload
  header_read (failure n) = do
    modify (Endpoint.set_errc H Q A (asio_code n))
    failed n (do close; modify (Endpoint.set_errc H Q A (asio_code n)))

  -- The handler of `read_payload`; a packet that the queue does not take is dropped.
  unfoldable pub payload_read : Code → M Client (Unit {0})
  unfolding close read_header failed
  payload_read success = do
    modify (Endpoint.set_errc H Q A no_error)
    Endpoint.parse_payload H Q A
    Endpoint.enqueue_read H Q A >>= λ taken. modify read_header
  payload_read (failure n) = do modify (Endpoint.set_errc H Q A (asio_code n)); failed n close

  -- `do_write`, with the packet that the queue gave.
  unfoldable pub start_write : Option Packet → Client → Client
  start_write none s = s
  start_write (some p) s =
      Endpoint.launch H Q A (writing p)
        (record s { write_packet = p; write_in_progress = true; started = s.started ++ (p ∷ []) })

  unfoldable pub do_write : Client → Client
  unfolding start_write
  do_write s =
      start_write (Q.try_dequeue s.write_queue).0
        (record s { write_queue = (Q.try_dequeue s.write_queue).1 })

  -- The handler of `do_write`.
  unfoldable pub written : Code → M Client (Unit {0})
  unfolding close do_write failed
  written success = do
    modify (Endpoint.set_errc H Q A no_error)
    modify (λ s.
        if ltb 0 (Q.size_approx s.write_queue)
        then do_write s
        else record s { write_in_progress = false })
  written (failure n) = do modify (Endpoint.set_errc H Q A (asio_code n)); failed n close

  -- The function that `write` posts.
  unfoldable pub write_posted : Packet → M Client (Unit {0})
  unfolding do_write
  write_posted p = do
    taken ← Endpoint.enqueue_write H Q A p
    when (not taken) (throw (transport_error write_queue_full))
    modify (λ s. if s.write_in_progress then s else do_write s)

  -- An operation ends with this code, and with these bytes, if it is a read.
  unfoldable pub complete : Operation → Code → List ℕ → M Client (Unit {0})
  unfolding header_read payload_read written write_posted
  complete accepting code bytes = pure tt
  complete reading_header code bytes = do
    modify (λ s. record s { read_packet = put_header bytes s.read_packet })
    header_read code
  complete (reading_payload n) code bytes = do
    modify (λ s. record s { read_packet = put_payload bytes s.read_packet })
    payload_read code
  complete (writing p) code bytes = written code
  complete (posted p) code bytes = write_posted p

  -- The `catch` clauses of `run`.
  unfoldable pub caught : Exception → Client → Client
  unfolding close read_header
  caught (packet_error e) s = record (read_header s) { looping = H.is_running s.thread }
  caught _ s = record (close s).1 { looping = false }

  unfoldable pub after_handler : Result (Unit {0}) × Client → Client
  unfolding caught
  after_handler (ok u, s) = s
  after_handler (err e, s) = caught e s

  -- The thread calls the handler of an operation that has ended.
  unfoldable pub run_operation : ℕ → Code → List ℕ → Option Operation → Client → Client
  unfolding complete after_handler
  run_operation i code bytes none s = s
  run_operation i code bytes (some o) s =
      if s.looping
      then after_handler (complete o code bytes (record s { operations = remove i s.operations }))
      else s

  unfoldable pub run_one : ℕ → Code → List ℕ → Client → Client
  unfolding run_operation
  run_one i code bytes s = run_operation i code bytes (get_elem? s.operations i) s

  -- `io_context_.run()` returns when no operation is left, and the loop of `run` is left.
  unfoldable pub run_out : Client → Client
  run_out s = if is_empty s.operations then record s { looping = false } else s

  unfoldable pub start : M Client (Unit {0})
  unfolding open_transport read_header
  start s =
      if H.is_running s.thread
      then (ok tt, s)
      else (do
        modify (λ s. record s { write_in_progress = false })
        open_transport
        modify (λ s. record s { thread = H.start s.thread; looping = true })
        modify read_header)
          s

  unfoldable pub stop : M Client (Unit {0})
  unfolding close
  stop s =
      if H.is_running s.thread
      then (do modify (λ s. record s { thread = H.stop s.thread }); close) s
      else (ok tt, s)
