-- ===== src/Slave/Watchdog.antt =====
-- When a slave of src/slave.cpp gives up its session for want of keep-alives.
use libhdcp.Base.{
  appli_code, ka_timeout, ℕ, ◌+◌, ◌≡◌, ◌≢◌, refl, ap, ◌∙◌, [], ◌∷◌, ◌++◌, Bool, true, false, none,
  arith, ltb, if◌then◌else◌,
}
use libhdcp.Interfaces.{Thread, TimeoutQueue, EventMngr, Transport}
use libhdcp.Slave.Manager.{Timer, ka_timeout_cb}
use libhdcp.Slave.Manager
use libhdcp.Slave.Machine.{Event, ka_timeout_event, disconnected, check_ka_timeout}
use libhdcp.Slave.Machine
use libhdcp.Slave.Engine
use libhdcp.Slave.Rounds.{rounds, rounds_lem, rounds-SameReport}
use libhdcp.Slave.Arming.{keepalive-Armed}

module _ (H : Thread) (Q : TimeoutQueue Timer) (V : EventMngr Event) (X : Transport) where
  abbrev Slave : Type 0
  Slave = Machine.Slave H Q V X

  -- The engine's check, when the event is there and when it is not.
  abbrev after_check : Slave → Slave
  after_check s = Engine.run_entry H Q V X (disconnected, check_ka_timeout) false s

  abbrev Checked : Slave → Bool → Slave → Type 0
  Checked s b t =
      (t.state ≡ (if b then disconnected else s.state))
      × (t.status_calls ≡ (
          if b
          then s.status_calls ++ ((disconnected, appli_code ka_timeout) ∷ [])
          else s.status_calls))

  check_lem :
      (b : Bool) (s : Slave)
      → V.contains ka_timeout_event s.events ≡ b
      → Checked s b (after_check s)
  unfolding Engine.run_entry Engine.call Machine.run_check_ka_timeout Engine.finish
      Machine.transition
  check_lem b s h = checked b (V.erase_found ka_timeout_event s.events ∙ h)
    where
      checked : (b : Bool) → (V.erase ka_timeout_event s.events).0 ≡ b → Checked s b (after_check s)
      checked true e = rw e (refl, refl)
      checked false e = rw e (refl, refl)

  -- A slave that manages keep-alives, with no timeout pending but that of the keep-alive and no
  -- timeout notified, answers a keep-alive, and then only the thread of its manager works:
  -- the event of the timeout is there once more rounds were made than the timeout has ticks, and not
  -- before, and the check of the engine then leaves for the state disconnected, with the error of
  -- the timeout, and otherwise changes nothing that is reported.
  pub watchdog_lem :
      (n : ℕ) (s : Slave)
      → H.is_running s.manager.thread ≡ true
      → s.manager.keepalive_mngt ≡ true
      → ((i : ℕ) → i ≢ s.manager.keepalive_id → Q.pending s.manager.timeout_queue i ≡ none)
      → V.contains ka_timeout_event s.events ≡ false
      → let late = ltb s.manager.timeout_keepalive n in
        let t = rounds H Q V X n (Machine.on_manager H Q V X (Manager.keepalive H Q X) s).1 in
        let u = Engine.run_entry H Q V X (disconnected, check_ka_timeout) false t in
        (V.contains ka_timeout_event t.events ≡ late)
        × (u.state ≡ (if late then disconnected else s.state))
        × (u.status_calls ≡ (
            if late
            then s.status_calls ++ ((disconnected, appli_code ka_timeout) ∷ [])
            else s.status_calls))
  watchdog_lem n s running on alone quiet =
      let m = s.manager in
      let kept = (Machine.on_manager H Q V X (Manager.keepalive H Q X) s).1 in
      let due = m.now + m.timeout_keepalive in
      let (watched, now) = keepalive-Armed H Q V X s running on alone in
      let told : V.contains ka_timeout_event (rounds H Q V X n kept).events
          ≡ ltb m.timeout_keepalive n =
        rounds_lem H Q V X n due kept watched (omega (arith, now)) quiet
        ∙ ap (λ k. ltb due (k + n)) now
        ∙ ground arith in
      let same = rounds-SameReport H Q V X n kept in
      let checked = check_lem (ltb m.timeout_keepalive n) (rounds H Q V X n kept) told in
      let late = ltb m.timeout_keepalive n in
      (
        told,
        checked.0 ∙ ap (λ st. if late then disconnected else st) same.same_state,
        checked.1
            ∙ ap (λ cs. if late then cs ++ ((disconnected, appli_code ka_timeout) ∷ []) else cs)
                same.same_calls,
      )
