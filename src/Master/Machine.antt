-- ===== src/Master/Machine.antt =====
-- The class Master of src/master.h and src/master.cpp: its handlers, its checks and its table of
-- transitions. The engine common::Statemachine chooses when an entry of the table is called, and
-- tells the handlers whether this is the first round in the state (`nb_loop_in_current_state() == 1`).
use libhdcp.Base.{
  ℕ, ◌+◌, ◌%◌, ◌^◌, List, [], ◌∷◌, ◌++◌, Bool, true, false, Option, none, some, ok, ErrorCode,
  no_error, ◌==◌, if◌then◌else◌,
}
use libhdcp.Base.State.{M, pure, modify, when, gets, ◌>>=◌, ◌>>◌}
use libhdcp.Identity.{set_fields, no_identification}
use libhdcp.Interfaces.{Thread, TimeoutQueue, EventMngr, Transport}
use libhdcp.Packet.Format.{PacketType, dip, ka_ack, cmd_ack, data_packet}
use libhdcp.Packet.Parse.{Packet, id, type, blocks}
use libhdcp.Packet.Make.{Identification}
use libhdcp.Master.Manager.{Timer, Manager}
use libhdcp.Master.Manager
use libhdcp.Timing.{connecting_timeout, keepalive_interval, keepalive_timeout}

-- Master::State
pub data State : Type 0 where
  init disconnected connecting connected : State

-- Master::Event
pub data Event : Type 0 where
  connection_requested disconnection_requested dip_received dip_timeout_event : Event
  ka_timeout_event stop_event connection_attempt : Event

-- common::transition_status
pub data Transition : Type 0 where
  stay_curr_state goto_next_state : Transition

-- The member functions that the table names.
pub data Method : Type 0 where
  handler_state_init handler_state_disconnected : Method
  handler_state_connecting handler_state_connected : Method
  check_true check_connection_requested check_connected check_disconnected : Method
  check_dip_timeout check_ka_timeout check_transport_closed : Method

-- `states_`: for each state the entries, a target and the function that decides on it.
abbrev pub table : State → List (State × Method)
table init = (init, handler_state_init) ∷ (disconnected, check_true) ∷ []
table disconnected =
    (disconnected, handler_state_disconnected) ∷ (connecting, check_connection_requested) ∷ []
table connecting =
    (connecting, handler_state_connecting)
    ∷ (disconnected, check_transport_closed)
    ∷ (disconnected, check_dip_timeout)
    ∷ (connected, check_connected)
    ∷ []
table connected =
    (connected, handler_state_connected)
    ∷ (disconnected, check_transport_closed)
    ∷ (disconnected, check_ka_timeout)
    ∷ (disconnected, check_disconnected)
    ∷ []

-- `p->id == State::connecting`
abbrev pub is_connecting : State → Bool
is_connecting connecting = true
is_connecting _ = false

module _ (H : Thread) (Q : TimeoutQueue Timer) (V : EventMngr Event) (X : Transport) where
  -- `status_calls` and `data_calls` record the calls of the two callbacks, the last one last; the
  -- callbacks are set, and return. The state of the engine is `state`. The transport is the
  -- manager's.
  pub record Master : Type 0 where
    pub thread : H.Handle
    pub state : State
    pub events : V.Events
    pub manager : Manager H Q X
    pub master_id : Identification
    pub slave_id : Identification
    pub received_packet_id : ℕ
    pub connection_attempts : ℕ
    pub errc : ErrorCode
    pub status_calls : List (State × ErrorCode)
    pub data_calls : List Packet

  abbrev pub link : Master → X.Link
  link s = s.manager.transport

  abbrev pub set_link : X.Link → Master → Master
  set_link l s = record s { manager = record s.manager { transport = l } }

  abbrev pub on_manager : M (Manager H Q X) (Unit {0}) → M Master (Unit {0})
  on_manager f s = ((f s.manager).0, record s { manager = (f s.manager).1 })

  abbrev pub change_manager : (Manager H Q X → Manager H Q X) → M Master (Unit {0})
  change_manager f s = (ok tt, record s { manager = f s.manager })

  abbrev pub notify : Event → M Master (Unit {0})
  notify e s = (ok tt, record s { events = V.notify e s.events })

  -- `evt_mngr_.erase(e)`, as a condition or for its effect.
  abbrev pub take_event : Event → M Master Bool
  take_event e s = (ok (V.erase e s.events).0, record s { events = (V.erase e s.events).1 })

  abbrev pub read : M Master (Option Packet)
  read s = (ok (X.read (link s)).0, set_link (X.read (link s)).1 s)

  -- The transition handler that the constructor sets.
  unfoldable pub transition : State → Master → Master
  transition next s =
      let attempted = V.notify connection_attempt s.events in
      record s {
        state = next;
        status_calls = s.status_calls ++ ((next, s.errc) ∷ []);
        errc = no_error;
        events = if is_connecting s.state then attempted else s.events;
      }

  unfoldable pub run_handler_init : M Master Transition
  run_handler_init = do
    modify (λ s. record s { events = V.clear s.events; errc = no_error })
    pure stay_curr_state

  -- `evt_mngr_.wait()` changes nothing: it returns when some event is there.
  unfoldable pub run_handler_disconnected : Bool → M Master Transition
  run_handler_disconnected first = do
    when first (do
      modify (λ s. record s { slave_id = no_identification })
      change_manager (Manager.stop H Q X))
    pure stay_curr_state

  unfoldable pub set_slave_id : Packet → Master → Master
  set_slave_id p s = record s { slave_id = set_fields s.slave_id (blocks p) }

  -- What the first round in the state connecting does.
  unfoldable pub enter_connecting : M Master (Unit {0})
  enter_connecting = do
    modify (λ s. set_link (X.clear_queues (link s)) s)
    change_manager (Manager.start H Q X)
    take_event dip_received >>= λ found. pure tt
    modify (λ s. record s { connection_attempts = 0 })

  -- `connection_attempts_ == 0 || evt_mngr_.erase(Event::dip_timeout)`
  unfoldable pub attempt_due : M Master Bool
  attempt_due s =
      if s.connection_attempts == 0 then (ok true, s) else take_event dip_timeout_event s

  -- `connection_attempts_++`, a uint, and the packet.
  unfoldable pub attempt : M Master (Unit {0})
  attempt = do
    modify (λ s. record s { connection_attempts = (s.connection_attempts + 1) % 2 ^ 32 })
    i ← gets (λ s. s.master_id)
    on_manager (Manager.send_hip H Q X i connecting_timeout)

  -- `if (!transport_->read(p)) return`; the packet goes to what follows.
  abbrev pub for_packet : (Packet → M Master (Unit {0})) → Option Packet → M Master (Unit {0})
  for_packet f none = pure tt
  for_packet f (some p) = f p

  -- The `switch` of handler_state_connecting.
  unfoldable pub receive_connecting : Option PacketType → Packet → M Master (Unit {0})
  unfolding set_slave_id
  receive_connecting (some dip) p = do
    modify (λ s. record s { received_packet_id = id p })
    modify (set_slave_id p)
    change_manager (Manager.ack_dip H Q X)
    notify dip_received
  receive_connecting _ p = pure tt

  unfoldable pub run_handler_connecting : Bool → M Master Transition
  unfolding enter_connecting attempt_due attempt receive_connecting
  run_handler_connecting first = do
    when first enter_connecting
    due ← attempt_due
    when due attempt
    read >>= for_packet (λ p. receive_connecting (type p) p)
    pure stay_curr_state

  -- `if (++received_packet_id_ != p.id())`, with its assignment.
  unfoldable pub count_packet : Packet → Master → Master
  count_packet p s =
      let expected = (s.received_packet_id + 1) % 2 ^ 16 in
      record s { received_packet_id = if expected == id p then expected else id p }

  -- The `switch` of handler_state_connected.
  unfoldable pub receive_connected : Option PacketType → Packet → M Master (Unit {0})
  receive_connected (some cmd_ack) p = on_manager (Manager.ack_command H Q X p)
  receive_connected (some data_packet) p =
      modify (λ s. record s { data_calls = s.data_calls ++ (p ∷ []) })
  receive_connected (some ka_ack) p = change_manager (Manager.ack_keepalive H Q X)
  receive_connected _ p = pure tt

  unfoldable pub run_handler_connected : Bool → M Master Transition
  unfolding count_packet receive_connected
  run_handler_connected first = do
    when first
        (on_manager (Manager.start_keepalive_management H Q X keepalive_interval keepalive_timeout))
    read >>= for_packet (λ p. do modify (count_packet p); receive_connected (type p) p)
    pure stay_curr_state
