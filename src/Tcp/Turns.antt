-- ===== src/Tcp/Turns.antt =====
-- What a turn of a server of src/tcp_server.cpp does to its writes.
use libhdcp.Base.{
  ℕ, ◌≡◌, sym, ap, ◌∙◌, List, [], ◌∷◌, ◌++◌, false, arith, some, append_assoc, get_elem?,
  Bool-cases, inl, inr, ltb, asio_code, no_error,
}
use libhdcp.Base.State.{modify, ◌>>◌, Preserves}
use libhdcp.Interfaces.{Thread}
use libhdcp.Packet.Parse.{Packet}
use libhdcp.Queues.{PacketQueue}
use libhdcp.Tcp.Asio.{
  Asio, Code, success, failure, Operation, reading_header, reading_payload, accepting, writing,
  posted, remove,
}
use libhdcp.Tcp.Endpoint.{put_header, put_payload}
use libhdcp.Tcp.Endpoint
use libhdcp.Tcp.Server
use libhdcp.Tcp.Stable
use libhdcp.Tcp.Writing.{NotWriting, writes, IsCurrent, writes-remove, writes-append, All-remove}
use libhdcp.Tcp.Writing

module _ (H : Thread) (Q : PacketQueue) (A : Asio) where
  abbrev State : Type 0
  State = Server.Server H Q A

  pub Ordered-IsStable : Stable.IsStable H Q A (Writing.Ordered H Q A)
  Ordered-IsStable = record {
    on_launch = Writing.launch_keeps H Q A;
    on_socket = λ s x h. h;
    on_errc = λ s e h. h;
    on_read_packet = λ s p h. h;
    on_read_queue = λ s q h. h;
    on_looping = λ s b h. h;
  }

  Quiet-IsStable : Stable.IsStable H Q A (Writing.Quiet H Q A)
  Quiet-IsStable = record {
    on_launch =
        λ o s n h. (writes-append s.operations (o ∷ []) ∙ omega (arith, h.0, not_writing o n), h.1);
    on_socket = λ s x h. h;
    on_errc = λ s e h. h;
    on_read_packet = λ s p h. h;
    on_read_queue = λ s q h. h;
    on_looping = λ s b h. h;
  }
    where
      not_writing : (o : Operation) → NotWriting o → writes (o ∷ []) ≡ 0
      not_writing o n = ground arith

  written_keeps :
      (c : Code) (s : State)
      → Writing.Quiet H Q A s
      → Writing.Ordered H Q A (Server.written H Q A c s).1
  unfolding Server.written
  written_keeps success s h =
      Stable.if_keeps H Q A (Writing.Ordered H Q A) Ordered-IsStable
        (ltb 0 (Q.size_approx s.write_queue))
        (Server.do_write H Q A (Endpoint.set_errc H Q A no_error s))
        (record s { errc = no_error; write_in_progress = false })
        (Writing.do_write_keeps H Q A (Endpoint.set_errc H Q A no_error s) h)
        (Writing.Quiet-Ordered H Q A (record s { errc = no_error; write_in_progress = false }) h)
  written_keeps (failure n) s h =
      let off = λ (t : State). record t { write_in_progress = false } in
      let reopen =
        Server.close H Q A
        >> modify
            (λ s. off (Server.open_transport H Q A (Endpoint.set_errc H Q A (asio_code n) s))) in
      Writing.Quiet-Ordered H Q A
        (Server.failed H Q A n (modify off) reopen (Endpoint.set_errc H Q A (asio_code n) s)).1
        (Stable.failed_keeps H Q A (Writing.Quiet H Q A) Quiet-IsStable n (modify off) reopen
          (λ t k. k)
          (Stable.reopen_keeps H Q A (Writing.Quiet H Q A) Quiet-IsStable n off (λ t k. k))
          (Endpoint.set_errc H Q A (asio_code n) s) h)

  write_posted_keeps :
      (p : Packet) → Preserves (Writing.Ordered H Q A) (Server.write_posted H Q A p)
  unfolding Server.write_posted Endpoint.enqueue_write
  write_posted_keeps p s (one, idle, current, order) =
      elim (Bool-cases (Q.try_enqueue p s.write_queue).0) [
        | inr refused ↦ rw refused (
          one,
          idle,
          current,
          order ∙ ap (λ q. s.started ++ q) (sym (Q.contents-refused p s.write_queue refused)),
        )
        | inl taken ↦
            let t : State = record s {
              write_queue = (Q.try_enqueue p s.write_queue).1;
              accepted = s.accepted ++ (p ∷ []);
            } in
            let order' : t.accepted ≡ t.started ++ Q.contents t.write_queue =
              ap (λ q. q ++ (p ∷ [])) order
              ∙ append_assoc s.started (Q.contents s.write_queue) (p ∷ [])
              ∙ ap (λ q. s.started ++ q) (sym (Q.contents-enqueue p s.write_queue taken)) in
            elim (Bool-cases s.write_in_progress) [
              | inl busy ↦ rw (taken, busy) (one, λ e. cc, current, order')
              | inr free ↦
                  rw (taken, free)
                    (Writing.do_write_keeps H Q A (record t { write_in_progress = false })
                      (idle free, order'))
            ]
      ]

  removed_keeps :
      (i : ℕ) (o : Operation) (s : State)
      → get_elem? s.operations i ≡ some o
      → Writing.Ordered H Q A s
      → Writing.Ordered H Q A (record s { operations = remove i s.operations })
  removed_keeps i o s found (one, idle, current, order) =
      let fewer = writes-remove s.operations i o found in
      (
        omega arith,
        λ e. omega (arith, fewer, idle e),
        All-remove (IsCurrent s.write_packet) i s.operations current,
        order,
      )

  -- An operation that has ended is no longer under way.
  pub complete_keeps :
      (i : ℕ) (o : Operation) (code : Code) (bytes : List ℕ) (s : State)
      → get_elem? s.operations i ≡ some o
      → Writing.Ordered H Q A s
      → Writing.Ordered H Q A
          (Server.complete H Q A o code bytes (record s { operations = remove i s.operations })).1
  unfolding Server.complete
  complete_keeps i accepting code bytes s found h =
      Stable.accepted_keeps H Q A (Writing.Ordered H Q A) Ordered-IsStable code _
        (removed_keeps i accepting s found h)
  complete_keeps i reading_header code bytes s found h =
      Stable.header_read_keeps H Q A (Writing.Ordered H Q A) Ordered-IsStable code _
        (removed_keeps i reading_header s found h)
  complete_keeps i (reading_payload n) code bytes s found h =
      Stable.payload_read_keeps H Q A (Writing.Ordered H Q A) Ordered-IsStable code _
        (removed_keeps i (reading_payload n) s found h)
  complete_keeps i (writing p) code bytes s found (one, idle, current, order) =
      written_keeps code (record s { operations = remove i s.operations })
        (omega (arith, writes-remove s.operations i (writing p) found), order)
  complete_keeps i (posted p) code bytes s found h =
      write_posted_keeps p (record s { operations = remove i s.operations })
        (removed_keeps i (posted p) s found h)
