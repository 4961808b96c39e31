-- ===== src/Tcp/Stable.antt =====
-- What the handlers of src/tcp_server.cpp that do not write keep.
use libhdcp.Base.{
  ℕ, Bool, true, false, Result, is_ok, ok, err, Exception, Bool-cases, inl, inr, ◌==◌,
  if◌then◌else◌, packet_error, transport_error, asio_code, no_error, ErrorCode,
}
use libhdcp.Base.State.{M, modify, pure, when, ◌>>◌, Preserves, Preserves-seq, Preserves-when}
use libhdcp.Interfaces.{Thread}
use libhdcp.Packet.Parse.{Packet, check_header, check_payload}
use libhdcp.Queues.{PacketQueue}
use libhdcp.Tcp.Asio.{
  Asio, Code, success, failure, Operation, reading_header, reading_payload, accepting,
}
use libhdcp.Tcp.Endpoint.{put_header, put_payload}
use libhdcp.Tcp.Endpoint
use libhdcp.Tcp.Server
use libhdcp.Tcp.Writing.{NotWriting}

module _ (H : Thread) (Q : PacketQueue) (A : Asio) where
  abbrev State : Type 0
  State = Server.Server H Q A

  -- A predicate that does not look at what has to do with the link and the reads.
  pub record IsStable (P : State → Type 0) : Type 0 where
    pub on_launch : (o : Operation) (s : State) → NotWriting o → P s → P (Endpoint.launch H Q A o s)
    pub on_socket : (s : State) (x : A.Socket) → P s → P (record s { socket = x })
    pub on_errc : (s : State) (e : ErrorCode) → P s → P (record s { errc = e })
    pub on_read_packet : (s : State) (p : Packet) → P s → P (record s { read_packet = p })
    pub on_read_queue : (s : State) (q : Q.Queue) → P s → P (record s { read_queue = q })
    pub on_looping : (s : State) (b : Bool) → P s → P (record s { looping = b })

  module _ (P : State → Type 0) (st : IsStable P) where
    pub if_keeps : (b : Bool) (s t : State) → P s → P t → P (if b then s else t)
    if_keeps true s t h k = h
    if_keeps false s t h k = k

    close_keeps : Preserves P (Server.close H Q A)
    unfolding Server.close
    close_keeps s h =
        Preserves-seq P (when (Endpoint.is_open H Q A s) (Endpoint.shutdown H Q A))
          (Endpoint.close_socket H Q A)
          (Preserves-when P (Endpoint.is_open H Q A s) (Endpoint.shutdown H Q A)
            (λ t k. st.on_socket t _ k))
          (λ t k. st.on_socket t _ k) s h

    open_keeps : (s : State) → P s → P (Server.open_transport H Q A s)
    unfolding Server.open_transport
    open_keeps s h = elim (Bool-cases (Endpoint.is_open H Q A s)) [
      | inl open_already ↦ rw open_already h
      | inr closed ↦ rw closed (st.on_launch accepting s tt h)
    ]

    pub failed_keeps :
        (n : ℕ) (a e : M State (Unit {0}))
        → Preserves P a
        → Preserves P e
        → Preserves P (Server.failed H Q A n a e)
    unfolding Server.failed
    failed_keeps n a e ka ke s h = elim (Bool-cases (n == A.operation_aborted)) [
      | inl yes_a ↦ rw yes_a (ka s h)
      | inr no_a ↦ elim (Bool-cases (n == A.eof)) [
        | inl yes_e ↦ rw (no_a, yes_e) (ke s h)
        | inr no_e ↦ rw (no_a, no_e) h
      ]
    ]

    -- `close(); errc_ = ec; open();` and what follows.
    pub reopen_keeps :
        (n : ℕ) (f : State → State)
        → ((s : State) → P s → P (f s))
        → Preserves P (
            Server.close H Q A
            >> modify
                (λ s. f (Server.open_transport H Q A (Endpoint.set_errc H Q A (asio_code n) s))))
    reopen_keeps n f kf =
        Preserves-seq P (Server.close H Q A)
          (modify (λ s. f (Server.open_transport H Q A (Endpoint.set_errc H Q A (asio_code n) s))))
          close_keeps (λ s h. kf _ (open_keeps _ (st.on_errc s (asio_code n) h)))

    pub accepted_keeps : (c : Code) (s : State) → P s → P (Server.connection_accepted H Q A c s)
    unfolding Server.connection_accepted Server.read_header
    accepted_keeps success s h =
        st.on_launch reading_header _ tt
          (st.on_errc _ no_error (st.on_socket s (A.accept s.socket) h))
    accepted_keeps (failure n) s h = st.on_errc s (asio_code n) h

    read_payload_keeps : (s : State) → P s → P (Server.read_payload H Q A s)
    unfolding Server.read_payload Server.read_header
    read_payload_keeps s h = st.on_launch (reading_payload _) _ tt (
        if_keeps (is_ok (check_header s.read_packet)) s (Endpoint.launch H Q A reading_header s) h
          (st.on_launch reading_header s tt h))

    pub header_read_keeps : (c : Code) → Preserves P (Server.header_read H Q A c)
    unfolding Server.header_read
    header_read_keeps success s h = read_payload_keeps _ (st.on_errc s no_error h)
    header_read_keeps (failure n) s h =
        failed_keeps n (pure tt) (Server.close H Q A >> modify (Server.open_transport H Q A))
          (λ t k. k)
          (Preserves-seq P (Server.close H Q A) (modify (Server.open_transport H Q A)) close_keeps
            open_keeps)
          (Endpoint.set_errc H Q A (asio_code n) s) (st.on_errc s (asio_code n) h)

    take_packet_keeps : (s : State) → P s → P (Server.take_packet H Q A s)
    unfolding Server.take_packet
    take_packet_keeps s h =
        if_keeps (is_ok (check_payload s.read_packet))
          (record s { read_queue = (Q.try_enqueue s.read_packet s.read_queue).1 }) s
          (st.on_read_queue s _ h) h

    pub payload_read_keeps : (c : Code) → Preserves P (Server.payload_read H Q A c)
    unfolding Server.payload_read Server.read_header
    payload_read_keeps success s h =
        st.on_launch reading_header _ tt (take_packet_keeps _ (st.on_errc s no_error h))
    payload_read_keeps (failure n) s h =
        failed_keeps n (pure tt)
          (Server.close H Q A
            >> modify (λ s. Server.open_transport H Q A (Endpoint.set_errc H Q A (asio_code n) s)))
          (λ t k. k) (reopen_keeps n (λ s. s) (λ s h. h)) (Endpoint.set_errc H Q A (asio_code n) s)
          (st.on_errc s (asio_code n) h)

    caught_keeps : (e : Exception) (s : State) → P s → P (Server.caught H Q A e s)
    unfolding Server.caught
    caught_keeps (packet_error e) s h = st.on_looping s _ h
    caught_keeps (transport_error e) s h = st.on_looping s _ h
    caught_keeps _ s h = st.on_looping _ false (close_keeps s h)

    pub after_handler_keeps :
        (r : Result (Unit {0}) × State) → P r.1 → P (Server.after_handler H Q A r)
    unfolding Server.after_handler
    after_handler_keeps (ok u, s) h = h
    after_handler_keeps (err e, s) h = caught_keeps e s h
