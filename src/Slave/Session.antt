-- ===== src/Slave/Session.antt =====
-- The states of a slave of src/slave.cpp, and what one call of the engine does to it.
use libhdcp.Base.{
  ℕ, ◌≡◌, ◌⊎◌, inl, inr, refl, sym, ap, ◌∙◌, [], ◌∷◌, ◌++◌, Bool, Option, some, Result, ok, err,
  ErrorCode, no_error, arith, get_elem?,
}
use libhdcp.Base.State.{M, modify, when, pure, ◌>>=◌, ◌>>◌, Returns, Returns-seq}
use libhdcp.Interfaces.{Thread, TimeoutQueue, EventMngr, Transport}
use libhdcp.Packet.Format.{PacketType}
use libhdcp.Packet.Parse.{Packet, type}
use libhdcp.Slave.Manager.{Timer, Manager}
use libhdcp.Slave.Manager
use libhdcp.Slave.Machine.{
  State, init, disconnected, connecting, connected, Event, Transition, stay_curr_state,
  goto_next_state, Method, handler_state_init, handler_state_disconnected, handler_state_connecting,
  handler_state_connected, check_true, check_hip_received, check_connected, check_ka_timeout,
  check_transport_closed, table,
}
use libhdcp.Slave.Machine
use libhdcp.Slave.Engine
use libhdcp.Slave.Handlers

-- The diagram of the states.
pub data Edge : State → State → Type 0 where
  boot : Edge init disconnected
  closed : Edge disconnected disconnected
  invited : Edge disconnected connecting
  lost : Edge connecting disconnected
  accepted : Edge connecting connected
  dropped : Edge connected disconnected
  rejoined : Edge connected connecting

abbrev handler_of : State → Method
handler_of init = handler_state_init
handler_of disconnected = handler_state_disconnected
handler_of connecting = handler_state_connecting
handler_of connected = handler_state_connected

-- An entry of the table is the state's handler, or it follows an edge.
table-Edge :
    (st : State) (i : ℕ) (e : State × Method)
    → get_elem? (table st) i ≡ some e
    → (e ≡ (st, handler_of st)) ⊎ Edge st e.0
table-Edge init i e h = grind (arith, boot)
table-Edge disconnected i e h = grind (arith, invited, closed)
table-Edge connecting i e h = grind (arith, lost, accepted)
table-Edge connected i e h = grind (arith, dropped, rejoined)

module _ (H : Thread) (Q : TimeoutQueue Timer) (V : EventMngr Event) (X : Transport) where
  abbrev Slave : Type 0
  Slave = Machine.Slave H Q V X

  -- What only the engine writes.
  pub record SameReport (s t : Slave) : Type 0 where
    pub same_state : t.state ≡ s.state
    pub same_calls : t.status_calls ≡ s.status_calls

  report-IsStable : (s : Slave) → Handlers.IsStable H Q V X (SameReport s)
  report-IsStable s = record {
    on_manager = λ t m h. record { same_state = h.same_state; same_calls = h.same_calls };
    on_notify = λ t e h. record { same_state = h.same_state; same_calls = h.same_calls };
    on_cmd_calls = λ t l h. record { same_state = h.same_state; same_calls = h.same_calls };
    on_errc = λ t e h. record { same_state = h.same_state; same_calls = h.same_calls };
    on_forget = λ t h. record { same_state = h.same_state; same_calls = h.same_calls };
  }

  -- No handler and no check changes the state or calls the status callback: that is the engine's.
  call-report :
      (m : Method) (first : Bool) (s : Slave) → SameReport s (Engine.call H Q V X m first s).1
  unfolding Engine.call
  call-report handler_state_init first s = record { same_state = refl; same_calls = refl }
  call-report handler_state_disconnected first s =
      Handlers.disconnected_keeps H Q V X (SameReport s) (report-IsStable s)
        (λ t n h. record { same_state = h.same_state; same_calls = h.same_calls })
        (λ t i h. record { same_state = h.same_state; same_calls = h.same_calls }) first s
        (record { same_state = refl; same_calls = refl })
  call-report handler_state_connecting first s =
      Handlers.connecting_keeps H Q V X (SameReport s) (report-IsStable s)
        (λ t n h. record { same_state = h.same_state; same_calls = h.same_calls }) first s
        (record { same_state = refl; same_calls = refl })
  call-report handler_state_connected first s =
      Handlers.connected_keeps H Q V X (SameReport s) (report-IsStable s)
        (λ t n h. record { same_state = h.same_state; same_calls = h.same_calls }) s
        (record { same_state = refl; same_calls = refl })
  call-report check_true first s = record { same_state = refl; same_calls = refl }
  call-report check_hip_received first s = record { same_state = refl; same_calls = refl }
  call-report check_connected first s = record { same_state = refl; same_calls = refl }
  call-report check_ka_timeout first s = ground arith
  call-report check_transport_closed first s = record { same_state = refl; same_calls = refl }

  abbrev Stays : M Slave Transition → Type 0
  Stays m = Returns (λ a. a ≡ stay_curr_state) m

  ends_staying : (m : M Slave (Unit {0})) → Stays (m >> pure stay_curr_state)
  ends_staying m = Returns-seq (λ a. a ≡ stay_curr_state) m (pure stay_curr_state) (λ s a h. cc)

  abbrev body : (Packet → M Slave (Unit {0})) → M Slave (Unit {0})
  body f = Machine.read H Q V X >>= Machine.for_packet H Q V X f

  abbrev counted : (Option PacketType → Packet → M Slave (Unit {0})) → Packet → M Slave (Unit {0})
  counted f p = modify (Machine.count_packet H Q V X p) >> f (type p) p

  -- A handler answers that the engine stays where it is, if it does not throw.
  handler-Stays : (st : State) (first : Bool) → Stays (Engine.call H Q V X (handler_of st) first)
  unfolding Engine.call
  handler-Stays init first s a h = cc
  handler-Stays disconnected first s a h =
      let receive = body (λ p. Machine.receive_disconnected H Q V X (type p) p) in
      Returns-seq (λ a. a ≡ stay_curr_state)
        (when first
          (Machine.change_manager H Q V X (Manager.stop H Q X) >> Machine.clear_queues H Q V X))
        (receive >> pure stay_curr_state) (ends_staying receive) s a h
  handler-Stays connecting first s a h =
      let receive = body (counted (Machine.receive_connecting H Q V X)) in
      Returns-seq (λ a. a ≡ stay_curr_state) (when first (Machine.enter_connecting H Q V X))
        (receive >> pure stay_curr_state) (ends_staying receive) s a h
  handler-Stays connected first s a h =
      ends_staying (body (counted (Machine.receive_connected H Q V X))) s a h

  -- How an engine's call leaves a slave: as it was but for the handlers' own parts, or in a state
  -- that an edge leads to, with one call of the status callback, and the error cleared.
  abbrev pub Reported : Slave → Slave → ErrorCode → Type 0
  Reported s t e =
      SameReport s t
      ⊎ (Edge s.state t.state
          × (t.status_calls ≡ s.status_calls ++ ((t.state, e) ∷ []))
          × (t.errc ≡ no_error))

  finish-Reported :
      (target : State) (s : Slave) (r : Result Transition × Slave)
      → SameReport s r.1
      → (r.0 ≡ ok goto_next_state → Edge s.state target)
      → Reported s (Engine.finish H Q V X target r) r.1.errc
  unfolding Engine.finish
  finish-Reported target s (ok goto_next_state, t) h edge = inr (edge refl, rw h.same_calls, refl)
  finish-Reported target s (ok stay_curr_state, t) h edge = inl h
  finish-Reported target s (err e, t) h edge = inl h

  -- A call of an entry of the table either leaves the state and the calls of the status callback
  -- as they were, or it goes to another state along an edge of the diagram, calls the callback
  -- once, with the new state and the error that the call left, and clears the error.
  pub run_entry-Reported :
      (s : Slave) (i : ℕ) (e : State × Method) (first : Bool)
      → get_elem? (table s.state) i ≡ some e
      → Reported s (Engine.run_entry H Q V X e first s) (Engine.call H Q V X e.1 first s).1.errc
  unfolding Engine.run_entry
  run_entry-Reported s i e first h =
      finish-Reported e.0 s (Engine.call H Q V X e.1 first s) (call-report e.1 first s) (λ q.
        elim (table-Edge s.state i e h) [
          | inl own ↦
              let answer = ap (λ x. (Engine.call H Q V X x.1 first s).0) (sym own) ∙ q in
              cc (handler-Stays s.state first s goto_next_state answer)
          | inr edge ↦ edge
        ])
