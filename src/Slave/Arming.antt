-- ===== src/Slave/Arming.antt =====
-- How a keep-alive arms the timeout anew in src/slave_request.cpp.
use libhdcp.Base.{
  Result, ℕ, ◌+◌, ◌≡◌, ◌≢◌, refl, sym, ap, ◌∙◌, true, none, arith, Bool-cases, inl, inr,
  if◌then◌else◌, ◌==◌,
}
use mathlib.Core.Path.{subst}
use libhdcp.Interfaces.{Thread, TimeoutQueue, EventMngr, Transport}
use libhdcp.Slave.Manager.{Timer, ka_timeout_cb}
use libhdcp.Slave.Manager
use libhdcp.Slave.Machine.{Event, ka_timeout_event, disconnected, check_ka_timeout}
use libhdcp.Packet.Make.{make_keepalive_ack}
use libhdcp.Slave.Machine
use libhdcp.Packet.Parse.{Packet}
use libhdcp.Base.State.{
  modify, gets, lift, ◌>>=◌, Preserves, Preserves-seq, Preserves-bind, Preserves-when, after_seq,
}
use libhdcp.Slave.Rounds.{IsWatched}

module _ (H : Thread) (Q : TimeoutQueue Timer) (V : EventMngr Event) (X : Transport) where
  abbrev Slave : Type 0
  Slave = Machine.Slave H Q V X

  -- The timeout is pending, and the time is `now`.
  abbrev pub Armed : Slave → ℕ → ℕ → Manager.Manager H Q X → Type 0
  Armed s due now m = IsWatched H Q V X due (record s { manager = m }) × (m.now ≡ now)

  write_next_keeps :
      (s : Slave) (due now : ℕ) (make : ℕ → Result Packet)
      → Preserves (Armed s due now) (Manager.write_next H Q X make)
  unfolding Manager.write_next
  write_next_keeps s due now make =
      let P = Armed s due now in
      let number = gets (λ (m : Manager.Manager H Q X). m.packet_id) in
      Preserves-seq P (modify (Manager.next_id H Q X))
        (number >>= λ id. lift (make id) >>= Manager.write H Q X)
        (λ m h. (record { running = h.0.running; armed = h.0.armed; alone = h.0.alone }, h.1))
        (Preserves-bind P number (λ id. lift (make id) >>= Manager.write H Q X) (λ m h. h)
          (λ id.
            Preserves-bind P (lift (make id)) (Manager.write H Q X) (λ m h. h)
              (λ p m h.
                (record { running = h.0.running; armed = h.0.armed; alone = h.0.alone }, h.1))))

  rearm-Armed :
      (s : Slave)
      → H.is_running s.manager.thread ≡ true
      → s.manager.keepalive_mngt ≡ true
      → ((i : ℕ) → i ≢ s.manager.keepalive_id → Q.pending s.manager.timeout_queue i ≡ none)
      → Armed s
          (s.manager.now + s.manager.timeout_keepalive)
          s.manager.now
          (Manager.rearm H Q X s.manager)
  unfolding Manager.rearm Manager.arm
  rearm-Armed s running on alone =
      let m = s.manager in
      let q = Q.erase m.timeout_queue m.keepalive_id in
      let t = Manager.arm H Q X (record m { timeout_queue = q }) in
      let rearmed : Manager.rearm H Q X m ≡ t = ap (λ b. if b then t else m) on in
      let erased : (i : ℕ) → Q.pending q i ≡ none = λ i. elim (Bool-cases (i == m.keepalive_id)) [
        | inl same ↦
            let here : i ≡ m.keepalive_id = ground arith in
            ap (Q.pending q) here ∙ Q.pending-erase m.timeout_queue m.keepalive_id
        | inr other ↦
            let elsewhere : i ≢ m.keepalive_id = ground arith in
            Q.pending-erase_other m.timeout_queue m.keepalive_id i elsewhere ∙ alone i elsewhere
      ] in
      subst (Armed s (m.now + m.timeout_keepalive) m.now) (sym rearmed) (
        record {
          running = running;
          armed = Q.pending-add q m.now m.timeout_keepalive ka_timeout_cb;
          alone = λ i other.
              Q.pending-add_other q m.now m.timeout_keepalive ka_timeout_cb i other ∙ erased i;
        },
        refl,
      )

  pub keepalive-Armed :
      (s : Slave)
      → H.is_running s.manager.thread ≡ true
      → s.manager.keepalive_mngt ≡ true
      → ((i : ℕ) → i ≢ s.manager.keepalive_id → Q.pending s.manager.timeout_queue i ≡ none)
      → Armed s
          (s.manager.now + s.manager.timeout_keepalive)
          s.manager.now
          (Manager.keepalive H Q X s.manager).1
  unfolding Manager.keepalive
  keepalive-Armed s running on alone =
      let m = s.manager in
      let P = Armed s (m.now + m.timeout_keepalive) m.now in
      after_seq P (modify (Manager.rearm H Q X))
        (Manager.if_open H Q X (Manager.write_next H Q X make_keepalive_ack)) m
        (rearm-Armed s running on alone)
        (λ t h.
          Preserves-when P (X.is_open t.transport) (Manager.write_next H Q X make_keepalive_ack)
            (write_next_keeps s (m.now + m.timeout_keepalive) m.now make_keepalive_ack) t h)
