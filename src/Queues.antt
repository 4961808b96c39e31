-- ===== src/Queues.antt =====
-- The two queues of the class Transport (src/transport.h), and its methods on them. The queues are
-- of the submodule libcommon: a record of operations, with what they do to the packets they hold.
use libhdcp.Base.{
  ℕ, zero, suc, ◌<◌, ◌≡◌, ◌∙◌, refl, ap, Bool, true, false, not, Option, none, some, List, [], ◌∷◌,
  ◌++◌, length, is_empty, if◌then◌else◌, is_some, arith, List-cases, inl, inr,
}
use libhdcp.Packet.Parse.{Packet}

-- `max_queue_size`, for which both queues reserve room.
abbrev pub max_queue_size : ℕ
max_queue_size = 100

abbrev pub first {ℓ} : {A : Type ℓ} → List A → Option A
first [] = none
first (x ∷ xs) = some x

abbrev pub rest {ℓ} : {A : Type ℓ} → List A → List A
rest [] = []
rest (x ∷ xs) = xs

-- common::ConcurrentQueue and common::BlockingReaderWriterQueue, oldest packet first.
pub record PacketQueue : Type 1 where
  pub Queue : Type 0
  pub try_enqueue : Packet → Queue → Bool × Queue
  pub try_dequeue : Queue → Option Packet × Queue
  pub pop : Queue → Bool × Queue
  pub size_approx : Queue → ℕ
  pub contents : Queue → List Packet
  pub enqueue_room :
      (p : Packet) (q : Queue) → length (contents q) < max_queue_size → (try_enqueue p q).0 ≡ true
  pub contents-enqueue :
      (p : Packet) (q : Queue)
      → (try_enqueue p q).0 ≡ true
      → contents (try_enqueue p q).1 ≡ contents q ++ (p ∷ [])
  pub contents-refused :
      (p : Packet) (q : Queue)
      → (try_enqueue p q).0 ≡ false
      → contents (try_enqueue p q).1 ≡ contents q
  pub dequeue_first : (q : Queue) → (try_dequeue q).0 ≡ first (contents q)
  pub contents-dequeue : (q : Queue) → contents (try_dequeue q).1 ≡ rest (contents q)
  pub pop_found : (q : Queue) → (pop q).0 ≡ not (is_empty (contents q))
  pub contents-pop : (q : Queue) → contents (pop q).1 ≡ rest (contents q)
  pub size_approx_lem : (q : Queue) → size_approx q ≡ length (contents q)

module _ (Q : PacketQueue) where
  -- The members `write_queue_` and `read_queue_`.
  pub record Queues : Type 0 where
    pub write_queue : Q.Queue
    pub read_queue : Q.Queue

  -- `read`: the packet that is there before the time of the wait has passed, if there is one.
  unfoldable pub read : Queues → Option Packet × Queues
  read s =
      ((Q.try_dequeue s.read_queue).0, record s { read_queue = (Q.try_dequeue s.read_queue).1 })

  -- `while (read_queue_.pop()) {}`
  unfoldable pub pop_all : ℕ → Q.Queue → Q.Queue
  pop_all zero q = q
  pop_all (suc fuel) q =
      let later = pop_all fuel (Q.pop q).1 in if (Q.pop q).0 then later else (Q.pop q).1

  -- `while (write_queue_.try_dequeue(p)) {}`
  unfoldable pub dequeue_all : ℕ → Q.Queue → Q.Queue
  dequeue_all zero q = q
  dequeue_all (suc fuel) q =
      let later = dequeue_all fuel (Q.try_dequeue q).1 in
      if is_some (Q.try_dequeue q).0 then later else (Q.try_dequeue q).1

  -- `clear_queues`: each loop has a round for every packet, and a last one.
  unfoldable pub clear_queues : Queues → Queues
  unfolding pop_all dequeue_all
  clear_queues s = record s {
    read_queue = pop_all (suc (Q.size_approx s.read_queue)) s.read_queue;
    write_queue = dequeue_all (suc (Q.size_approx s.write_queue)) s.write_queue;
  }

  contents-pop_all :
      (fuel : ℕ) (q : Q.Queue) → length (Q.contents q) < fuel → Q.contents (pop_all fuel q) ≡ []
  unfolding pop_all
  contents-pop_all zero q h = absurd (omega arith)
  contents-pop_all (suc fuel) q h = elim (List-cases (Q.contents q)) [
    | inl empty ↦ rw (Q.pop_found q, empty) (rw (Q.contents-pop q, empty) refl)
    | inr (p, ps, more) ↦
        let left : Q.contents (Q.pop q).1 ≡ ps = Q.contents-pop q ∙ rw more refl in
        rw (Q.pop_found q, more)
          (contents-pop_all fuel (Q.pop q).1 (rw left (ground (arith, ap length more))))
  ]

  contents-dequeue_all :
      (fuel : ℕ) (q : Q.Queue) → length (Q.contents q) < fuel → Q.contents (dequeue_all fuel q) ≡ []
  unfolding dequeue_all
  contents-dequeue_all zero q h = absurd (omega arith)
  contents-dequeue_all (suc fuel) q h = elim (List-cases (Q.contents q)) [
    | inl empty ↦ rw (Q.dequeue_first q, empty) (rw (Q.contents-dequeue q, empty) refl)
    | inr (p, ps, more) ↦
        let left : Q.contents (Q.try_dequeue q).1 ≡ ps = Q.contents-dequeue q ∙ rw more refl in
        rw (Q.dequeue_first q, more)
          (contents-dequeue_all fuel (Q.try_dequeue q).1 (rw left (ground (arith, ap length more))))
  ]

  -- Both loops of `clear_queues` end, and leave both queues empty.
  pub clear_queues_lem :
      (s : Queues)
      → (Q.contents (clear_queues s).read_queue ≡ [])
        × (Q.contents (clear_queues s).write_queue ≡ [])
  unfolding clear_queues
  clear_queues_lem s = (
    contents-pop_all (suc (Q.size_approx s.read_queue)) s.read_queue
        (omega (arith, Q.size_approx_lem s.read_queue)),
    contents-dequeue_all (suc (Q.size_approx s.write_queue)) s.write_queue
        (omega (arith, Q.size_approx_lem s.write_queue)),
  )
