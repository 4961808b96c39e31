-- ===== src/Tcp/Server.antt =====
-- The class Server of src/tcp_server.h and src/tcp_server.cpp.
use libhdcp.Base.{
  ℕ, true, false, not, Result, ok, err, List, [], ◌∷◌, ◌++◌, Option, some, none, no_error,
  asio_code, Exception, packet_error, transport_error, write_queue_full, write_while_closed,
  asio_error, ltb, ◌==◌, if◌then◌else◌, get_elem?, is_empty, is_ok,
}
use libhdcp.Base.State.{M, pure, throw, modify, when, gets, ◌>>=◌, ◌>>◌}
use libhdcp.Interfaces.{Thread}
use libhdcp.Packet.Parse.{Packet, header, check_header, check_payload}
use libhdcp.Queues.{PacketQueue}
use libhdcp.Tcp.Asio.{
  Asio, Code, success, failure, Operation, accepting, reading_header, reading_payload, writing,
  posted, remove,
}
use libhdcp.Tcp.Endpoint.{put_header, put_payload}
use libhdcp.Tcp.Endpoint

module _ (H : Thread) (Q : PacketQueue) (A : Asio) where
  abbrev pub Server : Type 0
  Server = Endpoint.Endpoint H Q A

  unfoldable pub write : Packet → M Server (Unit {0})
  write p s =
      if Endpoint.is_open H Q A s
      then (ok tt, Endpoint.launch H Q A (posted p) s)
      else (err (transport_error write_while_closed), s)

  -- `acceptor_.cancel()` ends an accept that is under way: it shows as its code.
  unfoldable pub close : M Server (Unit {0})
  close = do
    opened ← gets (Endpoint.is_open H Q A)
    when opened (Endpoint.shutdown H Q A)
    Endpoint.close_socket H Q A

  unfoldable pub open_transport : Server → Server
  open_transport s = if Endpoint.is_open H Q A s then s else Endpoint.launch H Q A accepting s

  unfoldable pub read_header : Server → Server
  read_header s = Endpoint.launch H Q A reading_header s

  -- A header that is refused is logged, and another one is read; then the payload is read.
  unfoldable pub read_payload : Server → Server
  unfolding read_header
  read_payload s =
      let s' = if is_ok (check_header s.read_packet) then s else read_header s in
      Endpoint.launch H Q A (reading_payload (header s'.read_packet).len) s'

  -- What the three handlers do with an error.
  unfoldable pub failed : ℕ → M Server (Unit {0}) → M Server (Unit {0}) → M Server (Unit {0})
  failed n at_abort at_eof =
      if n == A.operation_aborted
      then at_abort
      else if n == A.eof
      then at_eof
      else throw (asio_error n)

  -- The handler of `open`.
  unfoldable pub connection_accepted : Code → Server → Server
  unfolding read_header
  connection_accepted success s =
      read_header (record s { socket = A.accept s.socket; errc = no_error })
  connection_accepted (failure n) s = Endpoint.set_errc H Q A (asio_code n) s

  -- The handler of `read_header`.
  unfoldable pub header_read : Code → M Server (Unit {0})
  unfolding close open_transport read_payload failed
  header_read success = modify (λ s. read_payload (Endpoint.set_errc H Q A no_error s))
  header_read (failure n) = do
    modify (Endpoint.set_errc H Q A (asio_code n))
    failed n (pure tt) (do close; modify open_transport)

  -- What the handler of `read_payload` has in its `try`: the packet is checked and goes into the
  -- queue; what is thrown is logged.
  unfoldable pub take_packet : Server → Server
  take_packet s =
      let enqueued = record s { read_queue = (Q.try_enqueue s.read_packet s.read_queue).1 } in
      if is_ok (check_payload s.read_packet) then enqueued else s

  -- The handler of `read_payload`.
  unfoldable pub payload_read : Code → M Server (Unit {0})
  unfolding close open_transport read_header take_packet failed
  payload_read success =
      modify (λ s. read_header (take_packet (Endpoint.set_errc H Q A no_error s)))
  payload_read (failure n) = do
    modify (Endpoint.set_errc H Q A (asio_code n))
    failed n (pure tt)
        (do close; modify (λ s. open_transport (Endpoint.set_errc H Q A (asio_code n) s)))

  -- `do_write`, with the packet that the queue gave.
  unfoldable pub start_write : Option Packet → Server → Server
  start_write none s = s
  start_write (some p) s =
      Endpoint.launch H Q A (writing p)
        (record s { write_packet = p; write_in_progress = true; started = s.started ++ (p ∷ []) })

  unfoldable pub do_write : Server → Server
  unfolding start_write
  do_write s =
      start_write (Q.try_dequeue s.write_queue).0
        (record s { write_queue = (Q.try_dequeue s.write_queue).1 })

  -- The handler of `do_write`.
  unfoldable pub written : Code → M Server (Unit {0})
  unfolding close open_transport do_write failed
  written success = do
    modify (Endpoint.set_errc H Q A no_error)
    modify (λ s.
        if ltb 0 (Q.size_approx s.write_queue)
        then do_write s
        else record s { write_in_progress = false })
  written (failure n) = do
    modify (Endpoint.set_errc H Q A (asio_code n))
    failed n (modify (λ s. record s { write_in_progress = false })) (do
      close
      modify (λ s. record (open_transport (Endpoint.set_errc H Q A (asio_code n) s)) {
        write_in_progress = false;
      }))

  -- The function that `write` posts.
  unfoldable pub write_posted : Packet → M Server (Unit {0})
  unfolding do_write
  write_posted p = do
    taken ← Endpoint.enqueue_write H Q A p
    when (not taken) (throw (transport_error write_queue_full))
    modify (λ s. if s.write_in_progress then s else do_write s)

  -- An operation ends with this code, and with these bytes, if it is a read.
  unfoldable pub complete : Operation → Code → List ℕ → M Server (Unit {0})
  unfolding connection_accepted header_read payload_read written write_posted
  complete accepting code bytes = modify (connection_accepted code)
  complete reading_header code bytes = do
    modify (λ s. record s { read_packet = put_header bytes s.read_packet })
    header_read code
  complete (reading_payload n) code bytes = do
    modify (λ s. record s { read_packet = put_payload bytes s.read_packet })
    payload_read code
  complete (writing p) code bytes = written code
  complete (posted p) code bytes = write_posted p

  -- The `catch` clauses of `run`.
  unfoldable pub caught : Exception → Server → Server
  unfolding close
  caught (packet_error e) s = record s { looping = H.is_running s.thread }
  caught (transport_error e) s = record s { looping = H.is_running s.thread }
  caught _ s = record (close s).1 { looping = false }

  unfoldable pub after_handler : Result (Unit {0}) × Server → Server
  unfolding caught
  after_handler (ok u, s) = s
  after_handler (err e, s) = caught e s

  -- The thread calls the handler of an operation that has ended.
  unfoldable pub run_operation : ℕ → Code → List ℕ → Option Operation → Server → Server
  unfolding complete after_handler
  run_operation i code bytes none s = s
  run_operation i code bytes (some o) s =
      if s.looping
      then after_handler (complete o code bytes (record s { operations = remove i s.operations }))
      else s

  unfoldable pub run_one : ℕ → Code → List ℕ → Server → Server
  unfolding run_operation
  run_one i code bytes s = run_operation i code bytes (get_elem? s.operations i) s

  -- `io_context_.run()` returns when no operation is left, and the loop of `run` is left.
  unfoldable pub run_out : Server → Server
  run_out s = if is_empty s.operations then record s { looping = false } else s

  unfoldable pub start : Server → Server
  unfolding open_transport
  start s =
      let opened = open_transport (record s { write_in_progress = false }) in
      if H.is_running s.thread
      then s
      else record opened { thread = H.start s.thread; looping = true }

  unfoldable pub stop : M Server (Unit {0})
  unfolding close
  stop s =
      if H.is_running s.thread
      then (do close; modify (λ s. record s { thread = H.stop s.thread })) s
      else (ok tt, s)
