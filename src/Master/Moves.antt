-- ===== src/Master/Moves.antt =====
-- What one call of the engine does to a master of src/master.cpp.
use libhdcp.Base.{
  ℕ, ◌≡◌, ◌⊎◌, inl, inr, refl, sym, ap, ◌∙◌, [], ◌∷◌, ◌++◌, Bool, true, false, Option, some, none,
  Result, ok, err, ErrorCode, no_error, code, arith, get_elem?,
}
use libhdcp.Base.State.{M, modify, when, pure, ◌>>=◌, ◌>>◌, Returns, Returns-bind, Returns-seq}
use libhdcp.Interfaces.{Thread, TimeoutQueue, EventMngr, Transport}
use libhdcp.Identity.{no_identification}
use libhdcp.Master.Manager.{Timer}
use libhdcp.Master.Manager
use libhdcp.Master.Machine.{
  State, init, disconnected, connecting, connected, Event, Transition, stay_curr_state,
  goto_next_state, Method, handler_state_init, handler_state_disconnected, handler_state_connecting,
  handler_state_connected, check_true, check_connection_requested, check_connected,
  check_disconnected, check_dip_timeout, check_ka_timeout, check_transport_closed, table,
}
use libhdcp.Master.Machine
use libhdcp.Master.Engine
use libhdcp.Master.Session.{Edge, handler_of, table-Edge}
use libhdcp.Master.Session

module _ (H : Thread) (Q : TimeoutQueue Timer) (V : EventMngr Event) (X : Transport) where
  abbrev Master : Type 0
  Master = Machine.Master H Q V X

  -- No handler and no check changes the state or calls the status callback: that is the engine's.
  call-report :
      (m : Method) (first : Bool) (s : Master)
      → Session.SameReport H Q V X s (Engine.call H Q V X m first s).1
  unfolding Engine.call
  call-report handler_state_init first s = (refl, refl)
  call-report handler_state_disconnected true s = (refl, refl)
  call-report handler_state_disconnected false s = (refl, refl)
  call-report handler_state_connecting first s =
      Session.connecting_keeps H Q V X s first s (refl, refl)
  call-report handler_state_connected first s =
      Session.connected_keeps H Q V X s first s (refl, refl)
  call-report check_true first s = (refl, refl)
  call-report check_connection_requested first s = (refl, refl)
  call-report check_connected first s = (refl, refl)
  call-report check_disconnected first s = (refl, refl)
  call-report check_dip_timeout first s = ground arith
  call-report check_ka_timeout first s = ground arith
  call-report check_transport_closed first s = ground arith

  abbrev Stays : M Master Transition → Type 0
  Stays m = Returns (λ a. a ≡ stay_curr_state) m

  ends_staying : (m : M Master (Unit {0})) → Stays (m >> pure stay_curr_state)
  ends_staying m = Returns-seq (λ a. a ≡ stay_curr_state) m (pure stay_curr_state) (λ s a h. cc)

  -- A handler answers that the engine stays where it is, if it does not throw.
  handler-Stays : (st : State) (first : Bool) → Stays (Engine.call H Q V X (handler_of st) first)
  unfolding Engine.call
  handler-Stays init first s a h = cc
  handler-Stays disconnected first s a h =
      ends_staying
        (when first (
          modify (λ s. record s { slave_id = no_identification })
          >> Machine.change_manager H Q V X (Manager.stop H Q X)))
        s a h
  handler-Stays connecting first s a h =
      Returns-seq (λ a. a ≡ stay_curr_state) (when first (Machine.enter_connecting H Q V X))
        (Machine.attempt_due H Q V X >>= Session.try_connect H Q V X)
        (Returns-bind (λ a. a ≡ stay_curr_state) (Machine.attempt_due H Q V X)
          (Session.try_connect H Q V X)
          (λ due.
            Returns-seq (λ a. a ≡ stay_curr_state) (when due (Machine.attempt H Q V X))
              (Session.body H Q V X (Session.in_connecting H Q V X) >> pure stay_curr_state)
              (ends_staying (Session.body H Q V X (Session.in_connecting H Q V X)))))
        s a h
  handler-Stays connected first s a h =
      Returns-seq (λ a. a ≡ stay_curr_state) (when first (Session.begin_keepalive H Q V X))
        (Session.body H Q V X (Session.in_connected H Q V X) >> pure stay_curr_state)
        (ends_staying (Session.body H Q V X (Session.in_connected H Q V X))) s a h

  -- How an engine's call leaves a master: as it was but for the handlers' own parts, or in a state
  -- that an edge leads to, with one call of the status callback, and the error cleared.
  abbrev pub Reports : Master → Master → ErrorCode → Type 0
  Reports s t e =
      Session.SameReport H Q V X s t
      ⊎ (Edge s.state t.state
          × (t.status_calls ≡ s.status_calls ++ ((t.state, e) ∷ []))
          × (t.errc ≡ no_error))

  keep_code-report :
      (c : Option ErrorCode) (s t : Master)
      → Session.SameReport H Q V X s t
      → Session.SameReport H Q V X s (Engine.keep_code H Q V X c t)
  keep_code-report none s t h = h
  keep_code-report (some c) s t h = h

  finish-Reports :
      (target : State) (s : Master) (r : Result Transition × Master)
      → Session.SameReport H Q V X s r.1
      → (r.0 ≡ ok goto_next_state → Edge s.state target)
      → Reports s (Engine.finish H Q V X target r) r.1.errc
  unfolding Engine.finish
  finish-Reports target s (ok goto_next_state, t) h edge = inr (edge refl, rw h.1 refl, refl)
  finish-Reports target s (ok stay_curr_state, t) h edge = inl h
  finish-Reports target s (err e, t) h edge = inl (keep_code-report (code e) s t h)

  -- A call of an entry of the master's table either leaves the state and the calls of the status
  -- callback as they were, or it goes to another state along an edge of the diagram, calls the
  -- callback once, with the new state and the error that the call left, and clears the error.
  pub run_entry-Reports :
      (s : Master) (i : ℕ) (e : State × Method) (first : Bool)
      → get_elem? (table s.state) i ≡ some e
      → Reports s (Engine.run_entry H Q V X e first s) (Engine.call H Q V X e.1 first s).1.errc
  unfolding Engine.run_entry
  run_entry-Reports s i e first h =
      finish-Reports e.0 s (Engine.call H Q V X e.1 first s) (call-report e.1 first s) (λ q.
        elim (table-Edge s.state i e h) [
          | inl own ↦
              let answer = ap (λ x. (Engine.call H Q V X x.1 first s).0) (sym own) ∙ q in
              cc (handler-Stays s.state first s goto_next_state answer)
          | inr edge ↦ edge
        ])
