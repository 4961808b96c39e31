-- ===== src/Master/Ending.antt =====
-- A timer of src/master_request.cpp without a request ends the thread of the manager.
use libhdcp.Base.{
  ◌&&◌, ℕ, zero, suc, ◌+◌, ◌≤◌, ◌<◌, ◌≡◌, refl, ap, ◌∙◌, List, [], ◌∷◌, ◌++◌, true, false, not,
  Result, ok, err, Exception, arith, ltb, Bool-cases, Result-cases, inl, inr, ◌⊎◌,
  application_error, request_not_found,
}
use libhdcp.Base.State.{>>-ok, >>-err, Preserves, Preserves-seq}
use libhdcp.Interfaces.{Thread, TimeoutQueue, Entry, EventMngr, Transport}
use libhdcp.Master.Manager.{Timer, Manager, cmd_timeout_cb, max_retry}
use libhdcp.Master.Manager
use libhdcp.Master.Machine.{connected, Event}
use libhdcp.Master.Machine
use libhdcp.Master.Engine
use libhdcp.Master.Unknown.{
  Unknown, Unknown-timeout, on_cmd_timeout-Unknown, on_ka_mngt_timeout-Unknown,
}
use libhdcp.Master.Doomed.{
  IsDoomed, on_cmd_timeout-Doomed, on_ka_mngt_timeout-Doomed, run_round-Doomed,
}

module _ (H : Thread) (Q : TimeoutQueue Timer) (V : EventMngr Event) (X : Transport) where
  abbrev Master : Type 0
  Master = Machine.Master H Q V X

  -- Rounds of the manager's thread, and nothing else.
  abbrev pub rounds : ℕ → Master → Master
  rounds zero s = s
  rounds (suc k) s = rounds k (Engine.run_manager H Q V X s).1

  -- A thread that an exception has left makes no more rounds.
  pub run_manager-ended :
      (s : Master) → s.manager.ended ≡ true → Engine.run_manager H Q V X s ≡ (ok tt, s)
  unfolding Engine.run_manager Engine.on_timers Manager.run_round
  run_manager-ended s h = elim (Bool-cases (H.is_running s.manager.thread)) [
    | inl on ↦ simp (on, h) refl
    | inr off ↦ simp (off, h) refl
  ]

  rounds-ended : (k : ℕ) (s : Master) → s.manager.ended ≡ true → rounds k s ≡ s
  rounds-ended zero s h = refl
  rounds-ended (suc k) s h = rw (run_manager-ended s h) (rounds-ended k s h)

  module _ (i : ℕ) where
    abbrev UnknownTo : Master → Type 0
    UnknownTo s = Unknown H Q X i s.manager

    on_timer-Unknown : (c : ℕ × Timer) → Preserves UnknownTo (Engine.on_timer H Q V X c)
    unfolding Engine.on_timer
    on_timer-Unknown (j, Manager.cmd_timeout_cb) s k = on_cmd_timeout-Unknown H Q X i j s.manager k
    on_timer-Unknown (j, Manager.ka_mngt_timeout_cb) s k =
        on_ka_mngt_timeout-Unknown H Q X i s.manager k
    on_timer-Unknown (j, Manager.ka_timeout_cb) s k = k
    on_timer-Unknown (j, Manager.dip_timeout_cb) s k = k

    -- When the timer's turn comes, or before, a callback throws.
    on_timers-throw :
        (before later : List (ℕ × Timer)) (s : Master)
        → UnknownTo s
        → (x : Exception) × ((Engine.on_timers H Q V X
              (before ++ ((i, cmd_timeout_cb) ∷ later))
              s).0
            ≡ err x)
    unfolding Engine.on_timers Engine.on_timer
    on_timers-throw [] later s k =
        let call = Engine.on_timer H Q V X (i, cmd_timeout_cb) in
        let x = application_error request_not_found in
        let thrown : call s ≡ (err x, s) =
          ap (λ r. (r.0, record s { manager = r.1 })) (Unknown-timeout H Q X i s.manager k) in
        (x, ap (λ r. r.0) (>>-err call (Engine.on_timers H Q V X later) s s x thrown))
    on_timers-throw (c ∷ before) later s k =
        let first = Engine.on_timer H Q V X c in
        let rest = Engine.on_timers H Q V X (before ++ ((i, cmd_timeout_cb) ∷ later)) in
        let t = (first s).1 in
        elim (Result-cases (first s).0) [
          | inl (a, returned) ↦
              let (x, thrown) = on_timers-throw before later t (on_timer-Unknown c s k) in
              (x, ap (λ r. r.0) (>>-ok first rest s t (ap (λ r. (r, t)) returned)) ∙ thrown)
          | inr (x, thrown) ↦ (x, ap (λ r. r.0) (>>-err first rest s t x (ap (λ r. (r, t)) thrown)))
        ]

    module _ (e : Entry Timer) (n : ℕ) where
      abbrev DoomedTo : Master → Type 0
      DoomedTo s = IsDoomed H Q X i e n s.manager

      on_timer-Doomed : (c : ℕ × Timer) → Preserves DoomedTo (Engine.on_timer H Q V X c)
      unfolding Engine.on_timer
      on_timer-Doomed (j, Manager.cmd_timeout_cb) s k =
          on_cmd_timeout-Doomed H Q X i e n j s.manager k
      on_timer-Doomed (j, Manager.ka_mngt_timeout_cb) s k =
          on_ka_mngt_timeout-Doomed H Q X i e n s.manager k
      on_timer-Doomed (j, Manager.ka_timeout_cb) s k = k
      on_timer-Doomed (j, Manager.dip_timeout_cb) s k = k

      on_timers-Doomed : (cs : List (ℕ × Timer)) → Preserves DoomedTo (Engine.on_timers H Q V X cs)
      unfolding Engine.on_timers
      on_timers-Doomed [] s k = k
      on_timers-Doomed (c ∷ cs) s k =
          Preserves-seq DoomedTo (Engine.on_timer H Q V X c) (Engine.on_timers H Q V X cs)
            (on_timer-Doomed c) (on_timers-Doomed cs) s k

      leave_run-Doomed :
          (r : Result (Unit {0})) (s : Master)
          → DoomedTo s
          → let t = (Engine.leave_run H Q V X (r, s)).1 in DoomedTo t ⊎ (t.manager.ended ≡ true)
      leave_run-Doomed (ok a) s k = inl k
      leave_run-Doomed (err x) s k = inr refl

    -- A round before the timer is due, unless it ends the thread.
    early_round :
        (e : Entry Timer) (n : ℕ) (s : Master)
        → IsDoomed H Q X i e n s.manager
        → n < e.due
        → let t = (Engine.run_manager H Q V X s).1 in
          IsDoomed H Q X i e (n + 1) t.manager ⊎ (t.manager.ended ≡ true)
    unfolding Engine.run_manager
    early_round e n s k early =
        let (calls, m) = Manager.run_round H Q X s.manager in
        let r = Engine.on_timers H Q V X calls (record s { manager = m }) in
        leave_run-Doomed e (n + 1) r.0 r.1
          (on_timers-Doomed e (n + 1) calls _ (run_round-Doomed H Q X i e n s.manager k early))

    leave_run-ended :
        (r : Result (Unit {0})) (s : Master) (x : Exception)
        → r ≡ err x
        → (Engine.leave_run H Q V X (r, s)).1.manager.ended ≡ true
    leave_run-ended (ok a) s x h = absurd (cc h)
    leave_run-ended (err y) s x h = refl

    -- The manager after the queue has made its calls.
    abbrev spent : Manager H Q X → Manager H Q X
    spent m = record m { timeout_queue = (Q.expire m.now m.timeout_queue).1; now = m.now + 1 }

    run_round_lem :
        (m : Manager H Q X)
        → H.is_running m.thread ≡ true
        → m.ended ≡ false
        → Manager.run_round H Q X m ≡ ((Q.expire m.now m.timeout_queue).0, spent m)
    unfolding Manager.run_round
    run_round_lem m runs goes_on =
        let works : (H.is_running m.thread && not m.ended) ≡ true = rw (runs, goes_on) refl in
        rw works refl

    -- The round in which the timer is due ends the thread.
    last_round :
        (e : Entry Timer) (n : ℕ) (s : Master)
        → e.callback ≡ cmd_timeout_cb
        → IsDoomed H Q X i e n s.manager
        → e.due ≤ n
        → (Engine.run_manager H Q V X s).1.manager.ended ≡ true
    unfolding Engine.run_manager
    last_round e n s callback k late =
        let m = s.manager in
        let after = record s { manager = spent m } in
        let (before, later, calls) =
          Q.expire_due m.now m.timeout_queue i e k.is_pending (rw k.time late) in
        let (x, thrown) = on_timers-throw before later after k.is_unknown in
        rw (run_round_lem m k.runs k.goes_on) (
          leave_run-ended _ _ x (
            ap (λ cs. (Engine.on_timers H Q V X cs after).0)
              (calls ∙ ap (λ c. before ++ ((i, c) ∷ later)) callback)
            ∙ thrown))

    -- Enough rounds end the thread.
    pub rounds_lem :
        (k : ℕ) (e : Entry Timer) (n : ℕ) (s : Master)
        → e.callback ≡ cmd_timeout_cb
        → IsDoomed H Q X i e n s.manager
        → n ≤ e.due
        → e.due < n + k
        → (rounds k s).manager.ended ≡ true
    rounds_lem zero e n s callback d before enough = absurd (omega arith)
    rounds_lem (suc k) e n s callback d before enough =
        let t = (Engine.run_manager H Q V X s).1 in
        elim (Bool-cases (ltb n e.due)) [
          | inl early ↦ elim (early_round e n s d (ground arith)) [
            | inl still ↦ rounds_lem k e (n + 1) t callback still (ground arith) (omega arith)
            | inr ended ↦ rw (rounds-ended k t ended) ended
          ]
          | inr late ↦
              let ended = last_round e n s callback d (ground arith) in
              rw (rounds-ended k t ended) ended
        ]
