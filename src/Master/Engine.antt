-- ===== src/Master/Engine.antt =====
-- The class Master of src/master.cpp as a whole: its checks, the engine's calls, the timeouts, and
-- the methods that the application calls.
use libhdcp.Base.{
  ℕ, List, [], ◌∷◌, Bool, true, false, ◌&&◌, Option, some, none, Result, ok, err, ErrorCode, code,
  leb, appli_code, ka_timeout, dip_timeout, application_error, write_while_disconnected,
  connection_failed, if◌then◌else◌,
}
use libhdcp.Base.State.{M, pure, modify, when, ◌>>=◌, ◌>>◌}
use libhdcp.Interfaces.{Thread, TimeoutQueue, EventMngr, Transport}
use libhdcp.Master.Manager.{Timer}
use libhdcp.Master.Manager
use libhdcp.Master.Machine.{
  State, init, disconnected, connected, Event, connection_requested, disconnection_requested,
  dip_received, dip_timeout_event, ka_timeout_event, stop_event, connection_attempt, Transition,
  stay_curr_state, goto_next_state, Method, handler_state_init, handler_state_disconnected,
  handler_state_connecting, handler_state_connected, check_true, check_connection_requested,
  check_connected, check_disconnected, check_dip_timeout, check_ka_timeout, check_transport_closed,
}
use libhdcp.Master.Machine
use libhdcp.Timing.{max_connection_attempts, command_timeout}

module _ (H : Thread) (Q : TimeoutQueue Timer) (V : EventMngr Event) (X : Transport) where
  abbrev Master : Type 0
  Master = Machine.Master H Q V X

  abbrev pub goto_if : Bool → Transition
  goto_if true = goto_next_state
  goto_if false = stay_curr_state

  -- `if (evt_mngr_.erase(e)) return goto_next_state`
  unfoldable pub run_check_event : Event → M Master Transition
  run_check_event e = do b ← Machine.take_event H Q V X e; pure (goto_if b)

  unfoldable pub run_check_dip_timeout : M Master Transition
  run_check_dip_timeout s =
      if V.contains dip_timeout_event s.events && leb max_connection_attempts s.connection_attempts
      then (do
        Machine.take_event H Q V X dip_timeout_event >>= λ found. pure tt
        modify (λ s. record s { errc = appli_code dip_timeout })
        pure goto_next_state)
          s
      else (ok stay_curr_state, s)

  unfoldable pub run_check_ka_timeout : M Master Transition
  run_check_ka_timeout = do
    b ← Machine.take_event H Q V X ka_timeout_event
    when b (modify (λ s. record s { errc = appli_code ka_timeout }))
    pure (goto_if b)

  unfoldable pub run_check_transport_closed : M Master Transition
  run_check_transport_closed s =
      if X.is_open (Machine.link H Q V X s)
      then (ok stay_curr_state, s)
      else (ok goto_next_state, record s { errc = X.error_code (Machine.link H Q V X s) })

  unfoldable pub call : Method → Bool → M Master Transition
  unfolding run_check_event run_check_dip_timeout run_check_ka_timeout run_check_transport_closed
      Machine.run_handler_init Machine.run_handler_disconnected Machine.run_handler_connecting
      Machine.run_handler_connected
  call handler_state_init first = Machine.run_handler_init H Q V X
  call handler_state_disconnected first = Machine.run_handler_disconnected H Q V X first
  call handler_state_connecting first = Machine.run_handler_connecting H Q V X first
  call handler_state_connected first = Machine.run_handler_connected H Q V X first
  call check_true first = pure goto_next_state
  call check_connection_requested first = run_check_event connection_requested
  call check_connected first = run_check_event dip_received
  call check_disconnected first = run_check_event disconnection_requested
  call check_dip_timeout first = run_check_dip_timeout
  call check_ka_timeout first = run_check_ka_timeout
  call check_transport_closed first = run_check_transport_closed

  -- `errc_ = e.code()`, in `run`, for an exception of the library.
  abbrev pub keep_code : Option ErrorCode → Master → Master
  keep_code none s = s
  keep_code (some c) s = record s { errc = c }

  -- What the engine does with the answer, and `run` with an exception.
  unfoldable pub finish : State → Result Transition × Master → Master
  unfolding Machine.transition
  finish target (ok goto_next_state, s) = Machine.transition H Q V X target s
  finish target (ok stay_curr_state, s) = s
  finish target (err e, s) = keep_code (code e) s

  -- The engine calls one entry of the table.
  unfoldable pub run_entry : State × Method → Bool → Master → Master
  unfolding call finish
  run_entry (target, method) first s = finish target (call method first s)

  -- The callback of a timer. Those of the keep-alive and of the identification call `timeout_cb`.
  unfoldable pub on_timer : ℕ × Timer → M Master (Unit {0})
  on_timer (i, Manager.cmd_timeout_cb) = Machine.on_manager H Q V X (Manager.on_cmd_timeout H Q X i)
  on_timer (i, Manager.ka_mngt_timeout_cb) =
      Machine.on_manager H Q V X (Manager.on_ka_mngt_timeout H Q X)
  on_timer (i, Manager.ka_timeout_cb) = Machine.notify H Q V X ka_timeout_event
  on_timer (i, Manager.dip_timeout_cb) = Machine.notify H Q V X dip_timeout_event

  unfoldable pub on_timers : List (ℕ × Timer) → M Master (Unit {0})
  unfolding on_timer
  on_timers [] = pure tt
  on_timers (t ∷ ts) = on_timer t >> on_timers ts

  -- An exception of a callback leaves `run` of the manager.
  abbrev pub leave_run : Result (Unit {0}) × Master → Result (Unit {0}) × Master
  leave_run (ok a, s) = (ok a, s)
  leave_run (err e, s) = (err e, record s { manager = record s.manager { ended = true } })

  -- One round of the manager's thread.
  unfoldable pub run_manager : M Master (Unit {0})
  unfolding on_timers
  run_manager s =
      let (calls, m) = Manager.run_round H Q X s.manager in
      leave_run (on_timers calls (record s { manager = m }))

  abbrev pub is_connected : State → Bool
  is_connected connected = true
  is_connected _ = false

  abbrev pub is_disconnected : State → Bool
  is_disconnected disconnected = true
  is_disconnected _ = false

  -- `Master::send_command`, of the application.
  unfoldable pub send_command : ℕ → List ℕ → ℕ → M Master (Unit {0})
  send_command type content callback s =
      if is_connected s.state
      then Machine.on_manager H Q V X
          (Manager.send_command H Q X type content callback command_timeout) s
      else (err (application_error write_while_disconnected), s)

  unfoldable pub async_connect : Master → Master
  async_connect s =
      if is_connected s.state
      then s
      else record s { events = V.notify connection_requested s.events }

  unfoldable pub async_disconnect : Master → Master
  async_disconnect s =
      if is_disconnected s.state
      then s
      else record s { events = V.notify disconnection_requested s.events }

  -- `connect`, after its `wait`: before it, the method is `async_connect`.
  unfoldable pub finish_connect : M Master (Unit {0})
  finish_connect s =
      let t = record s { events = (V.erase connection_attempt s.events).1 } in
      if is_connected s.state then (ok tt, t) else (err (application_error connection_failed), t)

  -- `Master::start` and `Master::stop`. `reinit` puts the engine into the first state.
  unfoldable pub start : M Master (Unit {0})
  start s =
      if H.is_running s.thread
      then (ok tt, s)
      else (do
        (λ s. (
          (X.start (Machine.link H Q V X s)).0,
          Machine.set_link H Q V X (X.start (Machine.link H Q V X s)).1 s,
        ))
        modify (λ s. record s { state = init; thread = H.start s.thread }))
          s

  unfoldable pub stop : M Master (Unit {0})
  stop s =
      if H.is_running s.thread
      then (do
        modify (λ s. record s { thread = H.stop s.thread; events = V.notify stop_event s.events })
        Machine.change_manager H Q V X (Manager.stop H Q X)
        (λ s. (
          (X.stop (Machine.link H Q V X s)).0,
          Machine.set_link H Q V X (X.stop (Machine.link H Q V X s)).1 s,
        )))
          s
      else (ok tt, s)
