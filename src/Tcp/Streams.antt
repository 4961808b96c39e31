-- ===== src/Tcp/Streams.antt =====
-- A client of src/tcp_client.cpp at the end of a stream of bytes.
use libhdcp.Base.{
  ℕ, zero, suc, ◌+◌, ◌≤◌, ◌≡◌, sym, ap, ◌∙◌, List, [], ◌∷◌, ◌++◌, true, arith, length, some, take,
  drop, take-append, drop-append, append_assoc, append-nil, get_elem?, length-append, All,
}
use mathlib.Core.Path.{ap₂}
use libhdcp.Interfaces.{Thread}
use libhdcp.Packet.Parse.{Packet, header, header_view, payload}
use libhdcp.Queues.{PacketQueue, max_queue_size}
use libhdcp.Tcp.Asio.{Asio, success, Operation, reading_header, reading_payload, remove}
use libhdcp.Tcp.Endpoint.{wire, put_payload}
use libhdcp.Tcp.Client
use libhdcp.Packet.RoundTrip.{IsWhole}
use libhdcp.Tcp.Framing.{
  Same, wire_lem, length-header_view, length-payload, put_header-view, put_payload-Same,
}
use libhdcp.Tcp.Receiving.{
  Reads, read_at, wanted, Reads-launch_header, Reads-launch_payload, header_arrives,
  payload_arrives, with_header, with_payload,
}

-- The bytes of packets that are written one after the other.
abbrev pub wires : List Packet → List ℕ
wires [] = []
wires (p ∷ ps) = wire p ++ wires ps

-- Two reads for each packet.
abbrev pub reads_of : List Packet → ℕ
reads_of [] = 0
reads_of (p ∷ ps) = suc (suc (reads_of ps))

-- Packet by packet the same.
abbrev pub Arrived : List Packet → List Packet → Type 0
Arrived [] [] = Unit {0}
Arrived (p ∷ ps) (q ∷ qs) = Same p q × Arrived ps qs
Arrived _ _ = ⊥

module _ (H : Thread) (Q : PacketQueue) (A : Asio) where
  abbrev State : Type 0
  State = Client.Client H Q A

  -- So many reads end one after the other, each with the next bytes of a stream.
  unfoldable pub feed : ℕ → List ℕ → State → State
  feed zero bytes c = c
  feed (suc n) bytes c =
      let k = wanted (get_elem? c.operations (read_at c.operations)) in
      feed n (drop k bytes) (Client.run_one H Q A (read_at c.operations) success (take k bytes) c)

  feed_read :
      (n : ℕ) (o : Operation) (v rest : List ℕ) (c : State)
      → get_elem? c.operations (read_at c.operations) ≡ some o
      → wanted (some o) ≡ length v
      → feed (suc n) (v ++ rest) c
        ≡ feed n rest (Client.run_one H Q A (read_at c.operations) success v c)
  unfolding feed
  feed_read n o v rest c found size =
      let k = ap wanted found ∙ size in
      ap₂ (λ b t. feed n b (Client.run_one H Q A (read_at c.operations) success t c))
        (ap (λ i. drop i (v ++ rest)) k ∙ drop-append v rest)
        (ap (λ i. take i (v ++ rest)) k ∙ take-append v rest)

  -- The client after a whole packet.
  abbrev with_packet : Packet → State → State
  with_packet p c = with_payload H Q A p (with_header H Q A p c)

  packet_arrives :
      (n : ℕ) (p : Packet) (rest : List ℕ) (c : State)
      → IsWhole p
      → c.looping ≡ true
      → Reads reading_header c.operations
      → feed (suc (suc n)) (wire p ++ rest) c ≡ feed n rest (with_packet p c)
  packet_arrives n p rest c w l rs =
      let c1 = with_header H Q A p c in
      let rs1 =
        Reads-launch_payload (header p).len (remove (read_at c.operations) c.operations) rs.alone in
      let view = put_header-view p c.read_packet w in
      ap (λ v. feed (suc (suc n)) (v ++ rest) c) (wire_lem p w)
      ∙ ap (λ v. feed (suc (suc n)) v c) (append_assoc (header_view p) (payload p) rest)
      ∙ feed_read (suc n) reading_header (header_view p) (payload p ++ rest) c rs.at_read
          (sym (length-header_view p w))
      ∙ ap (feed (suc n) (payload p ++ rest)) (header_arrives H Q A p c w l rs)
      ∙ feed_read n (reading_payload (header p).len) (payload p) rest c1 rs1.at_read
          (sym (length-payload p w))
      ∙ ap (feed n rest) (payload_arrives H Q A p c1 w l view rs1)

  -- A client that is reading takes every packet of a stream: two reads for each, and the packets
  -- are in the queue, in order, with their headers and payloads, if the queue has room for them;
  -- and it is reading again.
  pub receive_lem :
      (ps : List Packet) (c : State)
      → All IsWhole ps
      → c.looping ≡ true
      → Reads reading_header c.operations
      → length (Q.contents c.read_queue) + length ps ≤ max_queue_size
      → let d = feed (reads_of ps) (wires ps) c in
        (qs : List Packet) × Arrived ps qs
        × (Q.contents d.read_queue ≡ Q.contents c.read_queue ++ qs)
        × (d.looping ≡ true)
        × Reads reading_header d.operations
  unfolding feed
  receive_lem [] c w l rs room = ([], tt, sym (append-nil (Q.contents c.read_queue)), l, rs)
  receive_lem (p ∷ ps) c (w, ws) l rs room =
      let c1 = with_header H Q A p c in
      let c2 = with_packet p c in
      let os = remove (read_at c.operations) c.operations in
      let rs1 = Reads-launch_payload (header p).len os rs.alone in
      let rs2 = Reads-launch_header (remove (read_at c1.operations) c1.operations) rs1.alone in
      let q = put_payload (payload p) c1.read_packet in
      let same = put_payload-Same p c1.read_packet w (put_header-view p c.read_packet w) in
      let taken : Q.contents c2.read_queue ≡ Q.contents c.read_queue ++ (q ∷ []) =
        Q.contents-enqueue q c.read_queue (Q.enqueue_room q c.read_queue (omega arith)) in
      let (qs, arrived, queue, looping, reading) =
        receive_lem ps c2 ws l rs2
          (omega (arith, ap length taken, length-append (Q.contents c.read_queue) (q ∷ []))) in
      rw (packet_arrives (reads_of ps) p (wires ps) c w l rs) (
        q ∷ qs,
        (same, arrived),
        queue ∙ ap (λ x. x ++ qs) taken ∙ append_assoc (Q.contents c.read_queue) (q ∷ []) qs,
        looping,
        reading,
      )
