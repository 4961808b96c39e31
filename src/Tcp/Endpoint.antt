-- ===== src/Tcp/Endpoint.antt =====
-- What the classes Client and Server of src/tcp_client.h and src/tcp_server.h both have: their
-- members, and the short calls that both make.
use libhdcp.Base.{
  ℕ, discard, ◌+◌, Bool, ok, List, [], ◌∷◌, ◌++◌, take, drop, length, ErrorCode, if◌then◌else◌,
}
use libhdcp.Base.State.{M}
use libhdcp.Interfaces.{Thread}
use libhdcp.Packet.Format.{header_size}
use libhdcp.Packet.Parse.{Packet, size, check_header, check_payload}
use libhdcp.Queues.{PacketQueue}
use libhdcp.Tcp.Asio.{Asio, Operation}

-- The bytes of the packet that a write sends: `buffer(p.data(), p.size())`
abbrev pub wire : Packet → List ℕ
wire p = take (size p) p.data_

-- A read that ends has put its bytes into the array: at `header_view`, and at `payload`.
abbrev pub put_header : List ℕ → Packet → Packet
put_header bytes p = record { data_ = bytes ++ drop (length bytes) p.data_ }

abbrev pub put_payload : List ℕ → Packet → Packet
put_payload bytes p = record {
  data_ = take header_size p.data_ ++ (bytes ++ drop (header_size + length bytes) p.data_);
}

module _ (H : Thread) (Q : PacketQueue) (A : Asio) where
  -- `operations` are the asynchronous operations under way, the one started last at the end;
  -- `looping` tells whether the thread is in the loop of `run`. `accepted` records the packets that
  -- went into the queue of writes, `started` those that `async_write` was called on.
  pub record Endpoint : Type 0 where
    pub thread : H.Handle
    pub socket : A.Socket
    pub operations : List Operation
    pub looping : Bool
    pub read_packet : Packet
    pub write_packet : Packet
    pub write_in_progress : Bool
    pub write_queue : Q.Queue
    pub read_queue : Q.Queue
    pub errc : ErrorCode
    pub accepted : List Packet
    pub started : List Packet

  abbrev pub is_open : Endpoint → Bool
  is_open s = A.is_open s.socket

  -- An asynchronous operation is started.
  abbrev pub launch : Operation → Endpoint → Endpoint
  launch o s = record s { operations = s.operations ++ (o ∷ []) }

  abbrev pub set_errc : ErrorCode → Endpoint → Endpoint
  set_errc e s = record s { errc = e }

  abbrev pub shutdown : M Endpoint (Unit {0})
  shutdown s = ((A.shutdown s.socket).0, record s { socket = (A.shutdown s.socket).1 })

  abbrev pub close_socket : M Endpoint (Unit {0})
  close_socket s = ((A.close s.socket).0, record s { socket = (A.close s.socket).1 })

  abbrev pub connect : M Endpoint (Unit {0})
  connect s = ((A.connect s.socket).0, record s { socket = (A.connect s.socket).1 })

  abbrev pub parse_header : M Endpoint (Unit {0})
  parse_header s = (discard (check_header s.read_packet), s)

  abbrev pub parse_payload : M Endpoint (Unit {0})
  parse_payload s = (check_payload s.read_packet, s)

  -- `read_queue_.try_enqueue(read_packet_)`
  abbrev pub enqueue_read : M Endpoint Bool
  enqueue_read s = (
    ok (Q.try_enqueue s.read_packet s.read_queue).0,
    record s { read_queue = (Q.try_enqueue s.read_packet s.read_queue).1 },
  )

  -- `write_queue_.try_enqueue(p)`
  unfoldable pub enqueue_write : Packet → M Endpoint Bool
  enqueue_write p s =
      let r = Q.try_enqueue p s.write_queue in
      (
        ok r.0,
        record s {
          write_queue = r.1;
          accepted = if r.0 then s.accepted ++ (p ∷ []) else s.accepted;
        },
      )
