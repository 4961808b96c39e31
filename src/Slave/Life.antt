-- ===== src/Slave/Life.antt =====
-- The life of a slave of src/slave.cpp as a relation between states: the engine's calls, the
-- manager's thread, the link and the application take turns in any order. The application may stop
-- the slave and start it again.
use libhdcp.Base.{
  ℕ, ◌≡◌, inl, inr, refl, List, [], ◌∷◌, ◌++◌, Bool, some, ErrorCode, get_elem?, arith, ◌⊎◌,
}
use libhdcp.Interfaces.{Thread, TimeoutQueue, EventMngr, Transport}
use libhdcp.Packet.Format.{Block, BlockView}
use libhdcp.Slave.Manager.{Timer}
use libhdcp.Slave.Manager
use libhdcp.Slave.Machine.{State, init, Event, Method, table}
use libhdcp.Slave.Machine
use libhdcp.Slave.Engine
use libhdcp.Slave.Session.{Reported, SameReport, run_entry-Reported}

-- The state of the last call, or `st` if there was none.
abbrev pub last_state : State → List (State × ErrorCode) → State
last_state st [] = st
last_state st (c ∷ cs) = last_state c.0 cs

last_state-append :
    (st : State) (cs : List (State × ErrorCode)) (c : State × ErrorCode)
    → last_state st (cs ++ (c ∷ [])) ≡ c.0
last_state-append st [] c = refl
last_state-append st (d ∷ cs) c = last_state-append d.0 cs c

module _ (H : Thread) (Q : TimeoutQueue Timer) (V : EventMngr Event) (X : Transport) where
  abbrev Slave : Type 0
  Slave = Machine.Slave H Q V X

  -- Any turn of events: an entry of the table is called, the manager's thread makes a round, the
  -- link changes, or the application sends data, starts or stops the slave.
  pub data Step (s : Slave) : Slave → Type 0 where
    called :
        (i : ℕ) (e : State × Method) (first : Bool)
        → get_elem? (table s.state) i ≡ some e
        → Step s (Engine.run_entry H Q V X e first s)
    timed : Step s (Engine.run_manager H Q V X s)
    linked : (l : X.Link) → Step s (Machine.set_link H Q V X l s)
    sent : (bs : List BlockView) → Step s (Engine.send_data H Q V X bs s).1
    sent_blocks : (bs : List Block) → Step s (Engine.send_data_of H Q V X bs s).1
    started_again : Step s (Engine.start H Q V X s).1
    stopped_now : Step s (Engine.stop H Q V X s).1

  -- Any number of turns.
  pub data Steps (s : Slave) : Slave → Type 0 where
    none_yet : Steps s s
    then : {t u : Slave} → Steps s t → Step t u → Steps s u

  -- What the application was told last is the state, unless this is the first state, into which
  -- a start puts the engine without a call.
  abbrev pub IsReported : Slave → Type 0
  IsReported s = (s.state ≡ init) ⊎ (last_state init s.status_calls ≡ s.state)

  same-IsReported : (s t : Slave) → SameReport H Q V X s t → IsReported s → IsReported t
  same-IsReported s t h k = rw (h.same_calls, h.same_state) k

  moved-IsReported :
      (s t : Slave) (e : ErrorCode) → Reported H Q V X s t e → IsReported s → IsReported t
  moved-IsReported s t e (inl same) k = same-IsReported s t same k
  moved-IsReported s t e (inr (edge, calls, cleared)) k =
      inr (rw calls (last_state-append init s.status_calls (t.state, e)))

  start-IsReported : (s : Slave) → IsReported s → IsReported (Engine.start H Q V X s).1
  unfolding Engine.start
  start-IsReported s k = ground arith

  stop-IsReported : (s : Slave) → IsReported s → IsReported (Engine.stop H Q V X s).1
  unfolding Engine.stop
  stop-IsReported s k = ground arith

  pub timeouts-SameReport :
      (calls : List (ℕ × Timer)) (s : Slave)
      → SameReport H Q V X s (Engine.timeouts H Q V X calls s)
  unfolding Engine.timeouts
  timeouts-SameReport [] s = record { same_state = refl; same_calls = refl }
  timeouts-SameReport ((i, Manager.ka_timeout_cb) ∷ calls) s =
      let later = timeouts-SameReport calls (Engine.timeout_cb H Q V X s) in
      record { same_state = later.same_state; same_calls = later.same_calls }

  Step-IsReported : (s t : Slave) → Step s t → IsReported s → IsReported t
  unfolding Engine.run_manager Engine.send_data Engine.send_data_of
  Step-IsReported s _ (called i e first h) k =
      moved-IsReported s _ _ (run_entry-Reported H Q V X s i e first h) k
  Step-IsReported s _ timed k =
      same-IsReported _ _ (timeouts-SameReport (Manager.run_round H Q X s.manager).0 _) k
  Step-IsReported s _ (linked l) k = k
  Step-IsReported s _ (sent bs) k = ground arith
  Step-IsReported s _ (sent_blocks bs) k = ground arith
  Step-IsReported s _ started_again k = start-IsReported s k
  Step-IsReported s _ stopped_now k = stop-IsReported s k

  -- Whatever the turns, starts and stops among them, the application knows the state of the slave:
  -- it is the first state, or the state of the last call of the status callback, if it was so at
  -- first.
  pub Steps-IsReported : (s t : Slave) → Steps s t → IsReported s → IsReported t
  Steps-IsReported s _ none_yet k = k
  Steps-IsReported s u (then {t} steps step) k =
      Step-IsReported t u step (Steps-IsReported s t steps k)
