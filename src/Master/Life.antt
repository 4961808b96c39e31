-- ===== src/Master/Life.antt =====
-- The life of a master of src/master.cpp as a relation between states: the engine's calls, the
-- manager's thread, the link and the application take turns in any order. The application may stop
-- the master and start it again.
use libhdcp.Base.{
  ℕ, ◌≡◌, refl, List, [], ◌∷◌, ◌++◌, ErrorCode, Bool, some, get_elem?, arith, inl, inr, ◌⊎◌, Result,
  ok, err,
}
use libhdcp.Base.State.{Preserves, Preserves-seq}
use libhdcp.Interfaces.{Thread, TimeoutQueue, EventMngr, Transport}
use libhdcp.Master.Manager.{Timer, Manager}
use libhdcp.Master.Manager
use libhdcp.Master.Machine.{State, init, Event, Method, table}
use libhdcp.Master.Machine
use libhdcp.Master.Engine
use libhdcp.Master.Session
use libhdcp.Master.Moves.{Reports, run_entry-Reports}
use libhdcp.Master.Accounts.{stopped}
use libhdcp.Master.Calls.{IsClosed, run_entry-Holds, run_manager-Holds, send_command-Holds}

-- The state of the last call, or `st` if there was none.
abbrev pub last_state : State → List (State × ErrorCode) → State
last_state st [] = st
last_state st (c ∷ cs) = last_state c.0 cs

last_state-append :
    (st : State) (cs : List (State × ErrorCode)) (c : State × ErrorCode)
    → last_state st (cs ++ (c ∷ [])) ≡ c.0
last_state-append st [] c = refl
last_state-append st (d ∷ cs) c = last_state-append d.0 cs c

module _ (H : Thread) (Q : TimeoutQueue Timer) (V : EventMngr Event) (X : Transport) where
  abbrev Master : Type 0
  Master = Machine.Master H Q V X

  -- Any turn of events: an entry of the table is called, the manager's thread makes a round, the
  -- link changes, or the application calls a method.
  pub data Step (s : Master) : Master → Type 0 where
    called :
        (i : ℕ) (e : State × Method) (first : Bool)
        → get_elem? (table s.state) i ≡ some e
        → Step s (Engine.run_entry H Q V X e first s)
    timed : Step s (Engine.run_manager H Q V X s).1
    linked : (l : X.Link) → Step s (Machine.set_link H Q V X l s)
    commanded :
        (type : ℕ) (content : List ℕ) (callback : ℕ)
        → Step s (Engine.send_command H Q V X type content callback s).1
    connection_asked : Step s (Engine.async_connect H Q V X s)
    connection_awaited : Step s (Engine.finish_connect H Q V X s).1
    disconnection_asked : Step s (Engine.async_disconnect H Q V X s)
    started_again : Step s (Engine.start H Q V X s).1
    stopped_now : Step s (Engine.stop H Q V X s).1

  -- Any number of turns.
  pub data Steps (s : Master) : Master → Type 0 where
    none_yet : Steps s s
    then : {t u : Master} → Steps s t → Step t u → Steps s u

  -- What the application was told last is the state, unless this is the first state, into which
  -- a start puts the engine without a call.
  abbrev pub IsTold : Master → Type 0
  IsTold s = (s.state ≡ init) ⊎ (last_state init s.status_calls ≡ s.state)

  same-IsTold : (s t : Master) → Session.SameReport H Q V X s t → IsTold s → IsTold t
  same-IsTold s t (state, calls) k = rw (calls, state) k

  moved-IsTold : (s t : Master) (e : ErrorCode) → Reports H Q V X s t e → IsTold s → IsTold t
  moved-IsTold s t e (inl same) k = same-IsTold s t same k
  moved-IsTold s t e (inr (edge, calls, cleared)) k =
      inr (rw calls (last_state-append init s.status_calls (t.state, e)))

  leave_run-IsTold :
      (r : Result (Unit {0})) (s : Master) → IsTold s → IsTold (Engine.leave_run H Q V X (r, s)).1
  leave_run-IsTold (ok a) s k = k
  leave_run-IsTold (err e) s k = k

  start-IsTold : (s : Master) → IsTold s → IsTold (Engine.start H Q V X s).1
  unfolding Engine.start
  start-IsTold s k = ground arith

  stop-IsTold : (s : Master) → IsTold s → IsTold (Engine.stop H Q V X s).1
  unfolding Engine.stop
  stop-IsTold s k = ground arith

  on_timer_reported : (c : ℕ × Timer) → Preserves IsTold (Engine.on_timer H Q V X c)
  unfolding Engine.on_timer
  on_timer_reported (i, Manager.cmd_timeout_cb) s k = k
  on_timer_reported (i, Manager.ka_mngt_timeout_cb) s k = k
  on_timer_reported (i, Manager.ka_timeout_cb) s k = k
  on_timer_reported (i, Manager.dip_timeout_cb) s k = k

  on_timers_reported : (cs : List (ℕ × Timer)) → Preserves IsTold (Engine.on_timers H Q V X cs)
  unfolding Engine.on_timers
  on_timers_reported [] s k = k
  on_timers_reported (c ∷ cs) s k =
      Preserves-seq IsTold (Engine.on_timer H Q V X c) (Engine.on_timers H Q V X cs)
        (on_timer_reported c) (on_timers_reported cs) s k

  Step-IsTold : (s t : Master) → Step s t → IsTold s → IsTold t
  unfolding Engine.run_manager Engine.send_command Engine.async_connect Engine.async_disconnect
      Engine.finish_connect
  Step-IsTold s _ (called i e first h) k =
      moved-IsTold s (Engine.run_entry H Q V X e first s) _
        (run_entry-Reports H Q V X s i e first h) k
  Step-IsTold s _ timed k =
      let (calls, m) = Manager.run_round H Q X s.manager in
      let r = Engine.on_timers H Q V X calls (record s { manager = m }) in
      leave_run-IsTold r.0 r.1 (on_timers_reported calls _ k)
  Step-IsTold s _ (linked l) k = k
  Step-IsTold s _ (commanded type content callback) k = ground arith
  Step-IsTold s _ connection_asked k = ground arith
  Step-IsTold s _ connection_awaited k = ground arith
  Step-IsTold s _ disconnection_asked k = ground arith
  Step-IsTold s _ started_again k = start-IsTold s k
  Step-IsTold s _ stopped_now k = stop-IsTold s k

  -- Whatever the turns, starts and stops among them, the application knows the state of the master:
  -- it is the first state, or the state of the last call of the status callback, if it was so at
  -- first.
  pub Steps-IsTold : (s t : Master) → Steps s t → IsTold s → IsTold t
  Steps-IsTold s _ none_yet k = k
  Steps-IsTold s u (then {t} steps step) k = Step-IsTold t u step (Steps-IsTold s t steps k)

  start-keeps :
      (P : Manager H Q X → Type 0) (cl : IsClosed H Q V X P) (s : Master)
      → P s.manager
      → P (Engine.start H Q V X s).1.manager
  unfolding Engine.start
  start-keeps P cl s k =
      let after = cl.on_link (X.start s.manager.transport).1 s.manager k in ground arith

  stop-keeps :
      (P : Manager H Q X → Type 0) (cl : IsClosed H Q V X P) (s : Master)
      → P s.manager
      → P (Engine.stop H Q V X s).1.manager
  unfolding Engine.stop
  stop-keeps P cl s k =
      let m = Manager.stop H Q X s.manager in
      let stopped_first = cl.on_call stopped s.manager k in
      let after = cl.on_link (X.stop m.transport).1 m stopped_first in ground arith

  -- A step keeps what the manager's calls keep.
  Step-keeps :
      (P : Manager H Q X → Type 0) (cl : IsClosed H Q V X P) (s t : Master)
      → Step s t
      → P s.manager
      → P t.manager
  unfolding Engine.async_connect Engine.async_disconnect Engine.finish_connect
  Step-keeps P cl s _ (called i e first h) k = run_entry-Holds H Q V X P cl e first s k
  Step-keeps P cl s _ timed k = run_manager-Holds H Q V X P cl s k
  Step-keeps P cl s _ (linked l) k = cl.on_link l s.manager k
  Step-keeps P cl s _ (commanded type content callback) k =
      send_command-Holds H Q V X P cl type content callback s k
  Step-keeps P cl s _ connection_asked k = ground arith
  Step-keeps P cl s _ connection_awaited k = ground arith
  Step-keeps P cl s _ disconnection_asked k = ground arith
  Step-keeps P cl s _ started_again k = start-keeps P cl s k
  Step-keeps P cl s _ stopped_now k = stop-keeps P cl s k

  pub Steps-keeps :
      (P : Manager H Q X → Type 0) (cl : IsClosed H Q V X P) (s t : Master)
      → Steps s t
      → P s.manager
      → P t.manager
  Steps-keeps P cl s _ none_yet k = k
  Steps-keeps P cl s u (then {t} steps step) k =
      Step-keeps P cl t u step (Steps-keeps P cl s t steps k)
