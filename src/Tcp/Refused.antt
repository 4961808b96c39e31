-- ===== src/Tcp/Refused.antt =====
-- What src/tcp_client.cpp and src/tcp_server.cpp do with a header that is refused.
use libhdcp.Base.{
  ℕ, ◌≡◌, ap, ◌∙◌, List, [], ◌∷◌, ◌++◌, true, is_ok, discard, err, some, get_elem?, PacketErrc,
  packet_error, no_error, append_assoc, if◌then◌else◌,
}
use libhdcp.Base.State.{modify, >>-err}
use libhdcp.Interfaces.{Thread}
use libhdcp.Packet.Parse.{header, check_header}
use libhdcp.Queues.{PacketQueue}
use libhdcp.Tcp.Asio.{Asio, success, reading_header, reading_payload, remove}
use libhdcp.Tcp.Endpoint.{put_header}
use libhdcp.Tcp.Endpoint
use libhdcp.Tcp.Client
use libhdcp.Tcp.Server
use libhdcp.Tcp.Receiving

module _ (H : Thread) (Q : PacketQueue) (A : Asio) where
  -- A header that is refused makes a client read another header, and nothing else. A server starts
  -- that read and also the read of a payload as long as the refused header says, so that two reads
  -- write to the same array.
  pub refused_lem :
      (i : ℕ) (bytes : List ℕ) (x : PacketErrc) (s : Endpoint.Endpoint H Q A)
      → s.looping ≡ true
      → get_elem? s.operations i ≡ some reading_header
      → check_header (put_header bytes s.read_packet) ≡ err (packet_error x)
      → ((Client.run_one H Q A i success bytes s).operations
          ≡ remove i s.operations ++ (reading_header ∷ []))
        × ((Server.run_one H Q A i success bytes s).operations
            ≡ remove i s.operations
              ++ (reading_header
                  ∷ reading_payload (header (put_header bytes s.read_packet)).len
                  ∷ []))
  unfolding Client.complete Client.header_read Client.read_payload Client.after_handler
      Client.caught Client.read_header Server.run_one Server.run_operation Server.complete
      Server.header_read Server.read_payload Server.read_header Server.after_handler
  refused_lem i bytes x s l found refused =
      let os = remove i s.operations in
      let q = put_header bytes s.read_packet in
      let t = record s { operations = os; read_packet = q; errc = no_error } in
      let asked = λ (c : Endpoint.Endpoint H Q A).
        Endpoint.launch H Q A (reading_payload (header c.read_packet).len) c in
      let thrown : Client.read_payload H Q A t ≡ (err (packet_error x), t) =
        >>-err (Endpoint.parse_header H Q A) (modify asked) t t (packet_error x)
          (ap (λ r. (discard r, t)) refused) in
      (
        ap (λ c. c.operations)
            (Receiving.run_one_lem H Q A i reading_header success bytes s (err (packet_error x), t)
              l found thrown),
        ap (λ c. c.operations)
              (ap (λ o. Server.run_operation H Q A i success bytes o s) found
                ∙ ap
                    (λ b.
                      if b
                      then asked (if is_ok (check_header q) then t else Server.read_header H Q A t)
                      else s)
                    l
                ∙ ap (λ r. asked (if is_ok r then t else Server.read_header H Q A t)) refused)
            ∙ append_assoc os (reading_header ∷ []) (reading_payload (header q).len ∷ []),
      )
