-- ===== src/Examples/Session.antt =====
-- A whole master with simple libraries, at which the theorems on its states are applied.
use libhdcp.Base.{
  transport_error, write_while_closed, some, none, ◌⊎◌, inr, ◌≡◌, refl, [], ◌∷◌, true, false, ok,
  err, arith, no_error, application_error, connection_failed,
}
use libhdcp.Interfaces.{TimeoutQueue, EventMngr}
use libhdcp.Identity.{no_identification}
use libhdcp.Master.Manager.{Timer}
use libhdcp.Master.Manager
use libhdcp.Master.Machine.{
  State, init, disconnected, connecting, connected, Event, connection_requested, connection_attempt,
  check_true,
}
use libhdcp.Master.Machine
use libhdcp.Master.Engine
use libhdcp.Packet.Format.{cmd}
use libhdcp.Packet.Parse.{Packet}
use libhdcp.Packet.Make.{make_command}
use libhdcp.Packet.RoundTrip.{Carries}
use libhdcp.Packet.Constructors.{make_command-Carries}
use libhdcp.Master.Requests.{find_request}
use libhdcp.Master.Requests
use libhdcp.Master.Ending.{rounds}
use libhdcp.Master.Refused.{refused_command_lem}
use libhdcp.Master.Connecting.{connect_lem}
use libhdcp.Master.Moves.{Reports, run_entry-Reports}
use libhdcp.Master.Life.{
  Step, Steps, called, commanded, timed, none_yet, then, last_state, Steps-IsTold,
}
use libhdcp.Master.Unique.{Unique}
use libhdcp.Master.Whole.{HasRun, Steps-HasRun, Steps-Unique}
use libhdcp.Examples.Instances.{flag_thread, table_queue, empty_table, event_set, pipe}

pub Event-discrete : Discrete Event
Event-discrete = hlevel

abbrev pub Queue : TimeoutQueue Timer
Queue = table_queue Timer

abbrev pub Events : EventMngr Event
Events = event_set Event Event-discrete

abbrev idle_manager : Manager.Manager flag_thread Queue pipe
idle_manager = record {
  thread = true;
  ended = false;
  requests = [];
  answers = [];
  timeout_queue = empty_table;
  keepalive_mngt_id = 0;
  dip_id = 0;
  ka_ids = [];
  keepalive_mngt = false;
  now = 0;
  packet_id = 3;
  timeout_keepalive = 0;
  transport = record { opened = true; outbox = []; inbox = [] };
}

-- A master after three attempts, with every event notified.
abbrev master_in : State → Machine.Master flag_thread Queue Events pipe
master_in st = record {
  thread = true;
  state = st;
  events = λ e. true;
  manager = idle_manager;
  master_id = no_identification;
  slave_id = no_identification;
  received_packet_id = 0;
  connection_attempts = 3;
  errc = no_error;
  status_calls = [];
  data_calls = [];
}

connect_lem_example :
    let t =
      Engine.async_connect flag_thread Queue Events pipe
        (Machine.transition flag_thread Queue Events pipe disconnected (master_in connecting)) in
    (t.state ≡ disconnected)
    × (t.events connection_requested ≡ true)
    × (t.events connection_attempt ≡ true)
    × ((Engine.finish_connect flag_thread Queue Events pipe t).0
        ≡ err (application_error connection_failed))
connect_lem_example = connect_lem flag_thread Queue Events pipe (master_in connecting) refl

run_entry-Reports_example :
    Reports flag_thread Queue Events pipe
      (master_in init)
      (Engine.run_entry flag_thread Queue Events pipe
        (disconnected, check_true)
        true
        (master_in init))
      no_error
unfolding Engine.call
run_entry-Reports_example =
    run_entry-Reports flag_thread Queue Events pipe (master_in init) 1 (disconnected, check_true)
      true refl

-- The master boots, and the application sends a command too early.
abbrev booted : Machine.Master flag_thread Queue Events pipe
booted =
    Engine.run_entry flag_thread Queue Events pipe (disconnected, check_true) true (master_in init)

abbrev early : Machine.Master flag_thread Queue Events pipe
early = (Engine.send_command flag_thread Queue Events pipe 5 (1 ∷ []) 0 booted).1

boot-Step : Step flag_thread Queue Events pipe (master_in init) booted
boot-Step = called 1 (disconnected, check_true) true refl

Steps-IsTold_example : (early.state ≡ init) ⊎ (last_state init early.status_calls ≡ early.state)
Steps-IsTold_example =
    Steps-IsTold flag_thread Queue Events pipe (master_in init) early
      (then (then none_yet boot-Step) (commanded 5 (1 ∷ []) 0)) (inr refl)

-- A connected master sends a command, and its manager's thread makes a round.
abbrev busy : Machine.Master flag_thread Queue Events pipe
busy =
    (Engine.run_manager flag_thread Queue Events pipe
      (Engine.send_command flag_thread Queue Events pipe 5 (1 ∷ []) 0 (master_in connected)).1).1

abbrev busy_steps : Steps flag_thread Queue Events pipe (master_in connected) busy
busy_steps = then (then none_yet (commanded 5 (1 ∷ []) 0)) timed

Steps-HasRun_example :
    HasRun flag_thread Queue Events pipe (master_in connected).manager busy.manager
Steps-HasRun_example =
    Steps-HasRun flag_thread Queue Events pipe (master_in connected) busy busy_steps

Steps-Unique_example : Unique flag_thread Queue pipe busy.manager
Steps-Unique_example =
    Steps-Unique flag_thread Queue Events pipe (master_in connected) busy busy_steps tt

-- A connected master whose transport is closed: it sends a command, and its manager's thread makes
-- eleven rounds.
abbrev closed_master : Machine.Master flag_thread Queue Events pipe
closed_master = record (master_in connected) {
  manager = record idle_manager {
    timeout_queue = record { next = 3; entries = λ _. none };
    transport = record { opened = false; outbox = []; inbox = [] };
  };
}

command_made :
    (p : Packet) × (make_command 4 5 (1 ∷ []) ≡ ok p)
    × Carries p 4 cmd (record { type = 5; content = 1 ∷ [] } ∷ [])
command_made = make_command-Carries 4 5 (1 ∷ []) (omega arith) (omega arith) (omega arith)

no_request-3 : find_request 3 [] ≡ none
unfolding Requests.find_request
no_request-3 = refl

refused_command_lem_example :
    let r = Engine.send_command flag_thread Queue Events pipe 5 (1 ∷ []) 0 closed_master in
    let t = rounds flag_thread Queue Events pipe 11 r.1 in
    (r.0 ≡ err (transport_error write_while_closed))
    × (r.1.manager.requests ≡ [])
    × (Queue.pending r.1.manager.timeout_queue 3
        ≡ some (record { callback = Manager.cmd_timeout_cb; due = 10; interval = some 10 }))
    × (t.manager.ended ≡ true)
    × (Engine.run_manager flag_thread Queue Events pipe t ≡ (ok tt, t))
refused_command_lem_example =
    refused_command_lem flag_thread Queue Events pipe 5 (1 ∷ []) 0 11 closed_master command_made.0
      (transport_error write_while_closed) refl refl refl command_made.1 refl (omega arith)
      no_request-3 (omega arith)
