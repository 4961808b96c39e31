-- ===== src/Slave/Rounds.antt =====
-- The timeout of the keep-alive in src/slave_request.cpp, as the thread of the manager counts time.
use libhdcp.Base.{
  ℕ, zero, suc, ◌+◌, ◌≤◌, ◌<◌, ◌≡◌, ◌≢◌, refl, sym, ap, ◌∙◌, List, [], ◌∷◌, ◌++◌, true, false, none,
  some, arith, All, ltb, Bool-cases, inl, inr, ◌==◌,
}
use mathlib.Core.Path.{subst}
use libhdcp.Interfaces.{Thread, TimeoutQueue, EventMngr, Transport, Entry, WasDue}
use libhdcp.Slave.Manager.{Timer, ka_timeout_cb}
use libhdcp.Slave.Manager
use libhdcp.Slave.Machine.{Event, ka_timeout_event, disconnected, check_ka_timeout}
use libhdcp.Slave.Machine
use libhdcp.Slave.Engine
use libhdcp.Slave.Session.{SameReport}
use libhdcp.Slave.Life.{timeouts-SameReport}

module _ (H : Thread) (Q : TimeoutQueue Timer) (V : EventMngr Event) (X : Transport) where
  abbrev Slave : Type 0
  Slave = Machine.Slave H Q V X

  -- The thread of the manager makes so many rounds, while nothing else is done.
  unfoldable pub rounds : ℕ → Slave → Slave
  rounds zero s = s
  rounds (suc n) s = rounds n (Engine.run_manager H Q V X s)

  -- The entry of the timeout of the keep-alive.
  abbrev watch : ℕ → Entry Timer
  watch due = record { callback = ka_timeout_cb; due = due; interval = none }

  -- The thread runs, and the one timeout that is pending is that of the keep-alive, at this time.
  pub record IsWatched (due : ℕ) (s : Slave) : Type 0 where
    pub running : H.is_running s.manager.thread ≡ true
    pub armed : Q.pending s.manager.timeout_queue s.manager.keepalive_id ≡ some (watch due)
    pub alone : (i : ℕ) → i ≢ s.manager.keepalive_id → Q.pending s.manager.timeout_queue i ≡ none

  -- The manager after one round.
  abbrev aged : Slave → Slave
  aged s = record s {
    manager = record s.manager {
      timeout_queue = (Q.expire s.manager.now s.manager.timeout_queue).1;
      now = s.manager.now + 1;
    };
  }

  run_manager_lem :
      (s : Slave)
      → H.is_running s.manager.thread ≡ true
      → Engine.run_manager H Q V X s
        ≡ Engine.timeouts H Q V X (Q.expire s.manager.now s.manager.timeout_queue).0 (aged s)
  unfolding Engine.run_manager Manager.run_round
  run_manager_lem s h = rw h refl

  abbrev Told : Slave → Type 0
  Told s = V.contains ka_timeout_event s.events ≡ true

  timeouts-manager :
      (calls : List (ℕ × Timer)) (s : Slave) → (Engine.timeouts H Q V X calls s).manager ≡ s.manager
  unfolding Engine.timeouts Engine.timeout_cb
  timeouts-manager [] s = refl
  timeouts-manager ((i, Manager.ka_timeout_cb) ∷ calls) s =
      timeouts-manager calls (Engine.timeout_cb H Q V X s)

  timeouts-Told :
      (calls : List (ℕ × Timer)) (s : Slave) → Told s → Told (Engine.timeouts H Q V X calls s)
  unfolding Engine.timeouts Engine.timeout_cb
  timeouts-Told [] s h = h
  timeouts-Told ((i, Manager.ka_timeout_cb) ∷ calls) s h =
      timeouts-Told calls (Engine.timeout_cb H Q V X s)
        (V.contains-notify ka_timeout_event s.events)

  -- A call is enough.
  called-Told :
      (before : List (ℕ × Timer)) (c : ℕ × Timer) (later : List (ℕ × Timer)) (s : Slave)
      → Told (Engine.timeouts H Q V X (before ++ (c ∷ later)) s)
  unfolding Engine.timeouts Engine.timeout_cb
  called-Told [] (i, Manager.ka_timeout_cb) later s =
      timeouts-Told later (Engine.timeout_cb H Q V X s)
        (V.contains-notify ka_timeout_event s.events)
  called-Told ((i, Manager.ka_timeout_cb) ∷ before) c later s =
      called-Told before c later (Engine.timeout_cb H Q V X s)

  rounds-Told : (n : ℕ) (s : Slave) → Told s → Told (rounds n s)
  unfolding rounds Engine.run_manager
  rounds-Told zero s h = h
  rounds-Told (suc n) s h =
      rounds-Told n (Engine.run_manager H Q V X s)
        (timeouts-Told (Manager.run_round H Q X s.manager).0 _ h)

  -- Nothing is called before its time.
  none_due :
      (due : ℕ) (s : Slave) (calls : List (ℕ × Timer))
      → IsWatched due s
      → s.manager.now < due
      → All (WasDue s.manager.now (Q.pending s.manager.timeout_queue)) calls
      → calls ≡ []
  none_due due s [] w early a = refl
  none_due due s (c ∷ calls) w early ((e, found, callback, was_due), a) =
      elim (Bool-cases (c.0 == s.manager.keepalive_id)) [
        | inl same ↦
            let here : c.0 ≡ s.manager.keepalive_id = ground arith in
            let entry : some e ≡ some (watch due) =
              sym found ∙ ap (Q.pending s.manager.timeout_queue) here ∙ w.armed in
            absurd (ground (arith, entry))
        | inr other ↦ cc (found, w.alone c.0 (ground arith))
      ]

  early_round :
      (due : ℕ) (s : Slave)
      → IsWatched due s
      → s.manager.now < due
      → (Engine.run_manager H Q V X s ≡ aged s) × IsWatched due (aged s)
  unfolding Engine.timeouts
  early_round due s w early =
      let quiet : (Q.expire s.manager.now s.manager.timeout_queue).0 ≡ [] =
        none_due due s (Q.expire s.manager.now s.manager.timeout_queue).0 w early
          (Q.expire_called s.manager.now s.manager.timeout_queue) in
      (
        run_manager_lem s w.running ∙ ap (λ cs. Engine.timeouts H Q V X cs (aged s)) quiet,
        record {
          running = w.running;
          armed =
              Q.pending-expire_later s.manager.now s.manager.timeout_queue s.manager.keepalive_id
                (watch due) w.armed early;
          alone = λ i other.
              Q.pending-expire_none s.manager.now s.manager.timeout_queue i (w.alone i other);
        },
      )

  late_round :
      (due : ℕ) (s : Slave)
      → IsWatched due s
      → due ≤ s.manager.now
      → Told (Engine.run_manager H Q V X s)
  late_round due s w late =
      let (before, later, split) =
        Q.expire_due s.manager.now s.manager.timeout_queue s.manager.keepalive_id (watch due)
          w.armed late in
      subst Told
        (sym (run_manager_lem s w.running ∙ ap (λ cs. Engine.timeouts H Q V X cs (aged s)) split))
        (called-Told before (s.manager.keepalive_id, ka_timeout_cb) later (aged s))

  -- The event is there exactly when the time has come in one of the rounds.
  pub rounds_lem :
      (n due : ℕ) (s : Slave)
      → IsWatched due s
      → s.manager.now ≤ due
      → V.contains ka_timeout_event s.events ≡ false
      → V.contains ka_timeout_event (rounds n s).events ≡ ltb due (s.manager.now + n)
  unfolding rounds
  rounds_lem zero due s w future quiet = quiet ∙ ground arith
  rounds_lem (suc n) due s w future quiet = elim (Bool-cases (ltb s.manager.now due)) [
    | inl early ↦
        let (step, watched) = early_round due s w (ground arith) in
        ap (λ u. V.contains ka_timeout_event (rounds n u).events) step
        ∙ rounds_lem n due (aged s) watched (ground arith) quiet
        ∙ ground arith
    | inr late ↦
        rounds-Told n (Engine.run_manager H Q V X s) (late_round due s w (ground arith))
        ∙ ground arith
  ]

  pub rounds-SameReport : (n : ℕ) (s : Slave) → SameReport H Q V X s (rounds n s)
  unfolding rounds Engine.run_manager
  rounds-SameReport zero s = record { same_state = refl; same_calls = refl }
  rounds-SameReport (suc n) s =
      let (calls, m) = Manager.run_round H Q X s.manager in
      let one = timeouts-SameReport H Q V X calls (record s { manager = m }) in
      let more = rounds-SameReport n (Engine.run_manager H Q V X s) in
      record {
        same_state = more.same_state ∙ one.same_state;
        same_calls = more.same_calls ∙ one.same_calls;
      }
