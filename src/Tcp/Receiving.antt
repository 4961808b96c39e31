-- ===== src/Tcp/Receiving.antt =====
-- A client of src/tcp_client.cpp that reads a stream of packets.
use libhdcp.Base.{
  ℕ, suc, ◌≡◌, refl, ap, ◌∙◌, List, [], ◌∷◌, ◌++◌, true, ok, Option, some, get_elem?, All, no_error,
  Result, discard, if◌then◌else◌,
}
use libhdcp.Base.State.{modify, ◌>>=◌, >>-ok}
use libhdcp.Interfaces.{Thread}
use libhdcp.Packet.Format.{Header, header_size}
use libhdcp.Packet.Parse.{
  Packet, header, header_view, payload, check_header, check_payload, parse_header,
}
use libhdcp.Queues.{PacketQueue}
use libhdcp.Tcp.Asio.{
  Asio, Code, success, Operation, reading_header, reading_payload, accepting, writing, posted,
  remove,
}
use libhdcp.Tcp.Endpoint.{wire, put_header, put_payload}
use libhdcp.Tcp.Endpoint
use libhdcp.Tcp.Client
use libhdcp.Packet.RoundTrip.{IsWhole}
use libhdcp.Tcp.Framing.{put_header-view, put_payload-Same, Same-IsWhole, header_lem}

abbrev pub NotRead : Operation → Type 0
NotRead reading_header = ⊥
NotRead (reading_payload n) = ⊥
NotRead _ = Unit {0}

-- Where the first read stands among the operations.
abbrev pub read_at : List Operation → ℕ
read_at [] = 0
read_at (reading_header ∷ os) = 0
read_at (reading_payload n ∷ os) = 0
read_at (_ ∷ os) = suc (read_at os)

-- How many bytes an operation reads.
abbrev pub wanted : Option Operation → ℕ
wanted (some reading_header) = header_size
wanted (some (reading_payload n)) = n
wanted _ = 0

-- A list of operations whose first read is `o`.
pub record Reads (o : Operation) (os : List Operation) : Type 0 where
  pub at_read : get_elem? os (read_at os) ≡ some o
  pub alone : All NotRead (remove (read_at os) os)

Reads-cons :
    (o : Operation) (os : List Operation)
    → Reads o os
    → (r : Operation) → NotRead r
    → Reads o (r ∷ os)
Reads-cons o os rs reading_header n = elim n [ ]
Reads-cons o os rs (reading_payload _) n = elim n [ ]
Reads-cons o os rs accepting n = record { at_read = rs.at_read; alone = (n, rs.alone) }
Reads-cons o os rs (writing p) n = record { at_read = rs.at_read; alone = (n, rs.alone) }
Reads-cons o os rs (posted p) n = record { at_read = rs.at_read; alone = (n, rs.alone) }

-- A read that is started where none was under way.
pub Reads-launch_header :
    (os : List Operation) → All NotRead os → Reads reading_header (os ++ (reading_header ∷ []))
Reads-launch_header [] a = record { at_read = refl; alone = tt }
Reads-launch_header (r ∷ os) (n, a) = Reads-cons reading_header _ (Reads-launch_header os a) r n

pub Reads-launch_payload :
    (k : ℕ) (os : List Operation)
    → All NotRead os
    → Reads (reading_payload k) (os ++ (reading_payload k ∷ []))
Reads-launch_payload k [] a = record { at_read = refl; alone = tt }
Reads-launch_payload k (r ∷ os) (n, a) =
    Reads-cons (reading_payload k) _ (Reads-launch_payload k os a) r n

module _ (H : Thread) (Q : PacketQueue) (A : Asio) where
  abbrev State : Type 0
  State = Client.Client H Q A

  pub run_one_lem :
      (i : ℕ) (o : Operation) (code : Code) (bytes : List ℕ) (c : State)
      (r : Result (Unit {0}) × State)
      → c.looping ≡ true
      → get_elem? c.operations i ≡ some o
      → Client.complete H Q A o code bytes (record c { operations = remove i c.operations }) ≡ r
      → Client.run_one H Q A i code bytes c ≡ Client.after_handler H Q A r
  unfolding Client.run_one Client.run_operation
  run_one_lem i o code bytes c r l found e =
      let out =
        Client.complete H Q A o code bytes (record c { operations = remove i c.operations }) in
      ap (λ x. Client.run_operation H Q A i code bytes x c) found
      ∙ ap (λ b. if b then Client.after_handler H Q A out else c) l
      ∙ ap (Client.after_handler H Q A) e

  read_payload_lem :
      (h : Header) (c : State)
      → check_header c.read_packet ≡ ok h
      → Client.read_payload H Q A c
        ≡ (ok tt, Endpoint.launch H Q A (reading_payload (header c.read_packet).len) c)
  unfolding Client.read_payload
  read_payload_lem h c e =
      >>-ok (Endpoint.parse_header H Q A)
        (modify (λ s. Endpoint.launch H Q A (reading_payload (header s.read_packet).len) s)) c c
        (ap (λ r. (discard r, c)) e)

  -- The client after the header of `p` has been read.
  abbrev pub with_header : Packet → State → State
  with_header p c = record c {
    operations =
        remove (read_at c.operations) c.operations ++ (reading_payload (header p).len ∷ []);
    read_packet = put_header (header_view p) c.read_packet;
    errc = no_error;
  }

  pub header_arrives :
      (p : Packet) (c : State)
      → IsWhole p
      → c.looping ≡ true
      → Reads reading_header c.operations
      → Client.run_one H Q A (read_at c.operations) success (header_view p) c ≡ with_header p c
  unfolding Client.complete Client.header_read Client.after_handler check_header
  header_arrives p c w l rs =
      let q = put_header (header_view p) c.read_packet in
      let os = remove (read_at c.operations) c.operations in
      let t = record c { operations = os; read_packet = q; errc = no_error } in
      let view = put_header-view p c.read_packet w in
      run_one_lem (read_at c.operations) reading_header success (header_view p) c
        (ok tt, Endpoint.launch H Q A (reading_payload (header q).len) t) l rs.at_read
        (read_payload_lem (header p) t (ap parse_header view ∙ w.header_checked))
      ∙ ap (λ h. Endpoint.launch H Q A (reading_payload h.len) t) (header_lem p q view)

  payload_read_lem :
      (c : State)
      → check_payload c.read_packet ≡ ok tt
      → Client.payload_read H Q A success c ≡ (
        ok tt,
        Endpoint.launch H Q A reading_header (record c {
          read_queue = (Q.try_enqueue c.read_packet c.read_queue).1;
          errc = no_error;
        }),
      )
  unfolding Client.payload_read Client.read_header
  payload_read_lem c e =
      let t = Endpoint.set_errc H Q A no_error c in
      >>-ok (Endpoint.parse_payload H Q A)
        (Endpoint.enqueue_read H Q A >>= λ taken. modify (Client.read_header H Q A)) t t
        (ap (λ r. (r, t)) e)

  -- The client after the payload of `p` has been read.
  abbrev pub with_payload : Packet → State → State
  with_payload p c =
      let q = put_payload (payload p) c.read_packet in
      record c {
        operations = remove (read_at c.operations) c.operations ++ (reading_header ∷ []);
        read_packet = q;
        read_queue = (Q.try_enqueue q c.read_queue).1;
        errc = no_error;
      }

  pub payload_arrives :
      (p : Packet) (c : State)
      → IsWhole p
      → c.looping ≡ true
      → header_view c.read_packet ≡ header_view p
      → Reads (reading_payload (header p).len) c.operations
      → Client.run_one H Q A (read_at c.operations) success (payload p) c ≡ with_payload p c
  unfolding Client.complete Client.after_handler
  payload_arrives p c w l h rs =
      let q = put_payload (payload p) c.read_packet in
      let t = record c {
        operations = remove (read_at c.operations) c.operations;
        read_packet = q;
      } in
      let checked = (Same-IsWhole p q (put_payload-Same p c.read_packet w h) w).payload_checked in
      run_one_lem (read_at c.operations) (reading_payload (header p).len) success (payload p) c
        (ok tt, with_payload p c) l rs.at_read (payload_read_lem t checked)
