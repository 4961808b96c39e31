-- ===== src/Master/Doomed.antt =====
-- A timer of src/master_request.cpp without a request stays pending until it is due, whatever the
-- other timers do.
use libhdcp.Base.{
  ℕ, ◌+◌, ◌<◌, ◌≡◌, ◌≢◌, refl, ap, ◌∙◌, List, [], ◌∷◌, true, false, some, none, arith, ltb,
  Bool-cases, Option-cases, inl, inr,
}
use libhdcp.Base.State.{
  modify, ◌>>=◌, ◌>>◌, Preserves, Preserves-bind, Preserves-seq, Preserves-when,
}
use libhdcp.Interfaces.{Thread, TimeoutQueue, Entry, Transport}
use libhdcp.Packet.Parse.{Packet}
use libhdcp.Packet.Make.{make_keepalive}
use libhdcp.Timing.{ticks, keepalive_interval}
use libhdcp.Master.Requests.{Request, find_request, inc_retry}
use libhdcp.Master.Manager.{Timer, Manager, cmd_timeout_cb, max_retry}
use libhdcp.Master.Manager
use libhdcp.Master.Pending.{find_request-inc_retry, find_request-erase_request}
use libhdcp.Master.Writing.{reset_keeps}
use libhdcp.Master.Unknown.{reset-Unknown}

-- A request is found by its own timer.
find_request-id : (j : ℕ) (rs : List Request) (r : Request) → find_request j rs ≡ some r → r.id ≡ j
unfolding find_request
find_request-id j [] r found = absurd (cc found)
find_request-id j (q ∷ rs) r found = ground (arith, find_request-id j rs r)

-- Round `n` of a thread that runs: the timer is pending with its entry, it is not the one of the
-- keep-alive, and no request belongs to it.
pub record IsDoomed (H : Thread) (Q : TimeoutQueue Timer) (X : Transport) (i : ℕ) (e : Entry Timer)
    (n : ℕ) (m : Manager H Q X) : Type 0 where
  pub runs : H.is_running m.thread ≡ true
  pub goes_on : m.ended ≡ false
  pub time : m.now ≡ n
  pub is_pending : Q.pending m.timeout_queue i ≡ some e
  pub is_other : i ≢ m.keepalive_mngt_id
  pub is_unknown : find_request i m.requests ≡ none

module _ (H : Thread) (Q : TimeoutQueue Timer) (X : Transport) (i : ℕ) (e : Entry Timer)
    (n : ℕ) where
  abbrev Doomed : Manager H Q X → Type 0
  Doomed = IsDoomed H Q X i e n

  reset-other :
      (m : Manager H Q X)
      → Q.pending m.timeout_queue i ≡ some e
      → i ≢ m.keepalive_mngt_id
      → i ≢ (Manager.reset_keepalive H Q X m).keepalive_mngt_id
  unfolding Manager.reset_keepalive
  reset-other m h other = elim (Bool-cases m.keepalive_mngt) [
    | inr off ↦ rw off other
    | inl on ↦
        let q = Q.erase m.timeout_queue m.keepalive_mngt_id in
        let kept = Q.pending-erase_other m.timeout_queue m.keepalive_mngt_id i other ∙ h in
        rw on (λ same. cc (
          Q.add_repeating_fresh q m.now (ticks keepalive_interval) Manager.ka_mngt_timeout_cb,
          same,
          kept,
        ))
  ]

  reset_clock :
      (m : Manager H Q X)
      → let t = Manager.reset_keepalive H Q X m in
        (t.thread ≡ m.thread) × (t.ended ≡ m.ended) × (t.now ≡ m.now)
  unfolding Manager.reset_keepalive
  reset_clock m = ground arith

  pub reset-Doomed : (m : Manager H Q X) → Doomed m → Doomed (Manager.reset_keepalive H Q X m)
  reset-Doomed m k =
      let (thread, ended, now) = reset_clock m in
      record {
        runs = rw thread k.runs;
        goes_on = rw ended k.goes_on;
        time = rw now k.time;
        is_pending = reset_keeps H Q X i e m k.is_pending k.is_other;
        is_other = reset-other m k.is_pending k.is_other;
        is_unknown = reset-Unknown H Q X i m k.is_unknown;
      }

  write-Doomed : (p : Packet) → Preserves Doomed (Manager.write H Q X p)
  write-Doomed p m k = record {
    runs = k.runs;
    goes_on = k.goes_on;
    time = k.time;
    is_pending = k.is_pending;
    is_other = k.is_other;
    is_unknown = k.is_unknown;
  }

  retry-Doomed : (j : ℕ) (r : Request) → Preserves Doomed (Manager.retry_command H Q X j r)
  unfolding Manager.retry_command
  retry-Doomed j r =
      let send = Manager.if_open H Q X (Manager.write H Q X r.command) in
      Preserves-seq Doomed (modify (λ m. record m { requests = inc_retry j m.requests }))
        (send >> modify (Manager.reset_keepalive H Q X))
        (λ m k. record {
          runs = k.runs;
          goes_on = k.goes_on;
          time = k.time;
          is_pending = k.is_pending;
          is_other = k.is_other;
          is_unknown = find_request-inc_retry i j m.requests k.is_unknown;
        })
        (Preserves-seq Doomed send (modify (Manager.reset_keepalive H Q X))
          (λ m.
            Preserves-when Doomed (X.is_open m.transport) (Manager.write H Q X r.command)
              (write-Doomed r.command) m)
          reset-Doomed)

  give_up-Doomed :
      (j : ℕ) (r : Request) (m : Manager H Q X)
      → i ≢ r.id
      → Doomed m
      → Doomed (Manager.give_up H Q X j r m).1
  unfolding Manager.give_up
  give_up-Doomed j r m other k = record {
    runs = k.runs;
    goes_on = k.goes_on;
    time = k.time;
    is_pending = Q.pending-erase_other m.timeout_queue r.id i other ∙ k.is_pending;
    is_other = k.is_other;
    is_unknown = find_request-erase_request i j m.requests k.is_unknown;
  }

  pub on_cmd_timeout-Doomed : (j : ℕ) → Preserves Doomed (Manager.on_cmd_timeout H Q X j)
  unfolding Manager.on_cmd_timeout
  on_cmd_timeout-Doomed j m k = elim (Option-cases (find_request j m.requests)) [
    | inl free ↦ rw free k
    | inr (r, found) ↦ elim (Bool-cases (ltb r.retry max_retry)) [
      | inl again ↦ rw (found, again) (retry-Doomed j r m k)
      | inr last ↦
          let own = find_request-id j m.requests r found in
          rw (found, last) (give_up-Doomed j r m (λ same. cc (own, same, found, k.is_unknown)) k)
    ]
  ]

  send_keepalive-Doomed : Preserves Doomed (Manager.send_keepalive H Q X)
  unfolding Manager.send_keepalive Manager.make_next
  send_keepalive-Doomed m k =
      Preserves-when Doomed (X.is_open m.transport)
        (Manager.make_next H Q X make_keepalive >>= Manager.write H Q X)
        (Preserves-bind Doomed (Manager.make_next H Q X make_keepalive) (Manager.write H Q X)
          (λ t d. record {
            runs = d.runs;
            goes_on = d.goes_on;
            time = d.time;
            is_pending = d.is_pending;
            is_other = d.is_other;
            is_unknown = d.is_unknown;
          })
          write-Doomed)
        m k

  await-Doomed :
      (old : List ℕ → List ℕ) (m : Manager H Q X)
      → Doomed m
      → Doomed (Manager.await_keepalive H Q X old m)
  unfolding Manager.await_keepalive
  await-Doomed old m k =
      let fresh = Q.add_fresh m.timeout_queue m.now m.timeout_keepalive Manager.ka_timeout_cb in
      record {
        runs = k.runs;
        goes_on = k.goes_on;
        time = k.time;
        is_pending =
            Q.pending-add_other m.timeout_queue m.now m.timeout_keepalive Manager.ka_timeout_cb i
              (λ same. cc (fresh, same, k.is_pending))
            ∙ k.is_pending;
        is_other = k.is_other;
        is_unknown = k.is_unknown;
      }

  pub on_ka_mngt_timeout-Doomed : Preserves Doomed (Manager.on_ka_mngt_timeout H Q X)
  unfolding Manager.on_ka_mngt_timeout
  on_ka_mngt_timeout-Doomed =
      Preserves-seq Doomed (Manager.send_keepalive H Q X)
        (modify (Manager.await_keepalive H Q X (λ ids. ids))) send_keepalive-Doomed
        (await-Doomed (λ ids. ids))

  -- A round before the timer is due.
  pub run_round-Doomed :
      (m : Manager H Q X)
      → Doomed m
      → n < e.due
      → IsDoomed H Q X i e (n + 1) (Manager.run_round H Q X m).1
  unfolding Manager.run_round
  run_round-Doomed m k early =
      let later = Q.pending-expire_later m.now m.timeout_queue i e k.is_pending (rw k.time early) in
      rw (k.runs, k.goes_on)
        (record {
          runs = k.runs;
          goes_on = refl;
          time = ap (λ t. t + 1) k.time;
          is_pending = later;
          is_other = k.is_other;
          is_unknown = k.is_unknown;
        })
