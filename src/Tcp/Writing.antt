-- ===== src/Tcp/Writing.antt =====
-- The writes of a server of src/tcp_server.cpp: one at a time, in order.
use libhdcp.Base.{
  ℕ, zero, suc, ◌+◌, ◌≤◌, ◌≡◌, refl, sym, ap, ◌∙◌, List, [], ◌∷◌, ◌++◌, false, arith, some,
  append_assoc, get_elem?, All, All-append, List-cases, inl, inr,
}
use libhdcp.Interfaces.{Thread}
use libhdcp.Packet.Parse.{Packet}
use libhdcp.Queues.{PacketQueue, rest}
use libhdcp.Tcp.Asio.{
  Asio, Operation, reading_header, reading_payload, accepting, writing, posted, remove,
}
use libhdcp.Tcp.Endpoint
use libhdcp.Tcp.Server

abbrev pub NotWriting : Operation → Type 0
NotWriting (writing p) = ⊥
NotWriting _ = Unit {0}

-- How many writes are under way.
abbrev pub writes : List Operation → ℕ
writes [] = 0
writes (writing p ∷ os) = suc (writes os)
writes (_ ∷ os) = writes os

-- A write under way sends the packet that is kept for it.
abbrev pub IsCurrent : Packet → Operation → Type 0
IsCurrent w (writing p) = p ≡ w
IsCurrent w _ = Unit {0}

pub writes-append : (xs ys : List Operation) → writes (xs ++ ys) ≡ writes xs + writes ys
writes-append [] ys = omega arith
writes-append (o ∷ xs) ys = ground (arith, writes-append xs ys)

pub writes-remove :
    (os : List Operation) (i : ℕ) (o : Operation)
    → get_elem? os i ≡ some o
    → writes (remove i os) + writes (o ∷ []) ≡ writes os
writes-remove [] i o h = cc
writes-remove (x ∷ os) zero o h = ground arith
writes-remove (x ∷ os) (suc i) o h = ground (arith, writes-remove os i o h)

pub All-remove {ℓ} :
    {A : Type ℓ} (P : A → Type 0) (i : ℕ) (xs : List A) → All P xs → All P (remove i xs)
All-remove P i [] a = tt
All-remove P zero (x ∷ xs) (p, a) = a
All-remove P (suc i) (x ∷ xs) (p, a) = (p, All-remove P i xs a)

none-IsCurrent : (w : Packet) (os : List Operation) → writes os ≡ 0 → All (IsCurrent w) os
none-IsCurrent w [] h = tt
none-IsCurrent w (writing p ∷ os) h = absurd (omega arith)
none-IsCurrent w (accepting ∷ os) h = (tt, none-IsCurrent w os h)
none-IsCurrent w (reading_header ∷ os) h = (tt, none-IsCurrent w os h)
none-IsCurrent w (reading_payload n ∷ os) h = (tt, none-IsCurrent w os h)
none-IsCurrent w (posted p ∷ os) h = (tt, none-IsCurrent w os h)

module _ (H : Thread) (Q : PacketQueue) (A : Asio) where
  abbrev State : Type 0
  State = Server.Server H Q A

  -- The packets that were taken are those that writes were started on, and then those that wait.
  abbrev InOrder : State → Type 0
  InOrder s = s.accepted ≡ s.started ++ Q.contents s.write_queue

  -- At most one write is under way, none if the flag is off, of the packet that is kept for it.
  abbrev pub Ordered : State → Type 0
  Ordered s =
      (writes s.operations ≤ 1)
      × (s.write_in_progress ≡ false → writes s.operations ≡ 0)
      × All (IsCurrent s.write_packet) s.operations
      × InOrder s

  -- No write is under way.
  abbrev pub Quiet : State → Type 0
  Quiet s = (writes s.operations ≡ 0) × InOrder s

  pub Quiet-Ordered : (s : State) → Quiet s → Ordered s
  Quiet-Ordered s (n, order) =
      (omega arith, λ _. n, none-IsCurrent s.write_packet s.operations n, order)

  pub launch_keeps :
      (o : Operation) (s : State) → NotWriting o → Ordered s → Ordered (Endpoint.launch H Q A o s)
  launch_keeps o s n (one, idle, current, order) =
      let more : writes (s.operations ++ (o ∷ [])) ≡ writes s.operations =
        writes-append s.operations (o ∷ []) ∙ ground arith in
      (
        omega arith,
        λ e. more ∙ idle e,
        All-append (IsCurrent s.write_packet) s.operations (o ∷ []) current (ground arith),
        order,
      )

  pub do_write_keeps : (s : State) → Quiet s → Ordered (Server.do_write H Q A s)
  unfolding Server.do_write Server.start_write
  do_write_keeps s (n, order) = elim (List-cases (Q.contents s.write_queue)) [
    | inl empty ↦
        rw (Q.dequeue_first s.write_queue, empty)
          (Quiet-Ordered (record s { write_queue = (Q.try_dequeue s.write_queue).1 })
            (
              n,
              order
                  ∙ ap (λ q. s.started ++ q)
                      (empty ∙ sym (Q.contents-dequeue s.write_queue ∙ ap rest empty)),
            ))
    | inr (p, ps, more) ↦
        let os = s.operations ++ (writing p ∷ []) in
        let one : writes os ≡ 1 = writes-append s.operations (writing p ∷ []) ∙ omega arith in
        let left : Q.contents (Q.try_dequeue s.write_queue).1 ≡ ps =
          Q.contents-dequeue s.write_queue ∙ ap rest more in
        rw (Q.dequeue_first s.write_queue, more)
          (
            omega arith,
            λ e. cc,
            All-append (IsCurrent p) s.operations (writing p ∷ []) (none-IsCurrent p s.operations n)
                (refl, tt),
            order
                ∙ ap (λ q. s.started ++ q) more
                ∙ sym (
                    ap (λ q. (s.started ++ (p ∷ [])) ++ q) left
                    ∙ append_assoc s.started (p ∷ []) ps),
          )
  ]
