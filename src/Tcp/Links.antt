-- ===== src/Tcp/Links.antt =====
-- The client and the server over TCP as the transport that the managers use (src/transport.h).
use libhdcp.Base.{
  ◌≡◌, refl, ap, ◌∙◌, sym, List, [], ◌∷◌, ◌++◌, true, ok, append_assoc, Bool-cases, inl, inr,
}
use libhdcp.Interfaces.{Thread, Transport, Takes}
use libhdcp.Packet.Parse.{Packet}
use libhdcp.Queues.{PacketQueue, Queues}
use libhdcp.Queues
use libhdcp.Tcp.Asio.{Asio, Operation, posted}
use libhdcp.Tcp.Endpoint
use libhdcp.Tcp.Client
use libhdcp.Tcp.Server

-- The packets whose functions have been posted and not called.
abbrev pub posted_packets : List Operation → List Packet
posted_packets [] = []
posted_packets (posted p ∷ os) = p ∷ posted_packets os
posted_packets (_ ∷ os) = posted_packets os

posted_packets-append :
    (xs ys : List Operation) → posted_packets (xs ++ ys) ≡ posted_packets xs ++ posted_packets ys
posted_packets-append [] ys = refl
posted_packets-append (posted p ∷ xs) ys = ap (λ ps. p ∷ ps) (posted_packets-append xs ys)
posted_packets-append (_ ∷ xs) ys = posted_packets-append xs ys

module _ (H : Thread) (Q : PacketQueue) (A : Asio) where
  abbrev State : Type 0
  State = Endpoint.Endpoint H Q A

  abbrev pub queues : State → Queues Q
  queues s = record { write_queue = s.write_queue; read_queue = s.read_queue }

  abbrev pub with_queues : Queues Q → State → State
  with_queues q s = record s { write_queue = q.write_queue; read_queue = q.read_queue }

  -- What was given to the transport: the packets that went into its queue, and then those that wait
  -- for their function to be called.
  abbrev pub given : State → List Packet
  given s = s.accepted ++ posted_packets s.operations

  pub given-launch :
      (p : Packet) (s : State) → given (Endpoint.launch H Q A (posted p) s) ≡ given s ++ (p ∷ [])
  given-launch p s =
      ap (λ ps. s.accepted ++ ps) (posted_packets-append s.operations (posted p ∷ []))
      ∙ sym (append_assoc s.accepted (posted_packets s.operations) (p ∷ []))

  abbrev pub client : Transport
  client = record {
    Link = State;
    write = Client.write H Q A;
    read = λ s. ((Queues.read Q (queues s)).0, with_queues (Queues.read Q (queues s)).1 s);
    clear_queues = λ s. with_queues (Queues.clear_queues Q (queues s)) s;
    start = Client.start H Q A;
    stop = Client.stop H Q A;
    is_open = Endpoint.is_open H Q A;
    error_code = λ s. s.errc;
  }

  abbrev pub server : Transport
  server = record client {
    write = Server.write H Q A;
    start = λ s. (ok tt, Server.start H Q A s);
    stop = Server.stop H Q A;
  }

  module _ (p : Packet) (s : State) (open_ : Endpoint.is_open H Q A s ≡ true) where
    pub client-write : Client.write H Q A p s ≡ (ok tt, Endpoint.launch H Q A (posted p) s)
    unfolding Client.write
    client-write = rw open_ refl

    pub server-write : Server.write H Q A p s ≡ (ok tt, Endpoint.launch H Q A (posted p) s)
    unfolding Server.write
    server-write = rw open_ refl

  pub is_open-client_write :
      (p : Packet) (s : State)
      → Endpoint.is_open H Q A (Client.write H Q A p s).1 ≡ Endpoint.is_open H Q A s
  unfolding Client.write
  is_open-client_write p s = elim (Bool-cases (Endpoint.is_open H Q A s)) [
    | inl opened ↦ ap (λ r. Endpoint.is_open H Q A r.1) (client-write p s opened)
    | inr closed ↦ rw closed closed
  ]

  pub is_open-server_write :
      (p : Packet) (s : State)
      → Endpoint.is_open H Q A (Server.write H Q A p s).1 ≡ Endpoint.is_open H Q A s
  unfolding Client.write Server.write
  is_open-server_write p s = is_open-client_write p s

  -- Both take every packet while they are open.
  abbrev pub client_takes : Takes client
  client_takes = record {
    sent = given;
    write_ok = λ p s o. ap (λ r. r.0) (client-write p s o);
    sent-write = λ p s o. ap (λ r. given r.1) (client-write p s o) ∙ given-launch p s;
    is_open-write = is_open-client_write;
  }

  abbrev pub server_takes : Takes server
  server_takes = record {
    sent = given;
    write_ok = λ p s o. ap (λ r. r.0) (server-write p s o);
    sent-write = λ p s o. ap (λ r. given r.1) (server-write p s o) ∙ given-launch p s;
    is_open-write = is_open-server_write;
  }
