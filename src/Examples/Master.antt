-- ===== src/Examples/Master.antt =====
-- A master with simple libraries, at which the theorems on its requests are applied.
use libhdcp.Base.{
  ℕ, ◌+◌, ◌≤◌, ◌<◌, ◌≡◌, ◌⊎◌, refl, List, [], ◌∷◌, ◌++◌, true, false, some, none, ok, err, arith,
  application_error, request_not_found,
}
use libhdcp.Interfaces.{TimeoutQueue}
use libhdcp.Packet.Format.{BlockView, cmd, cmd_ack, le16}
use libhdcp.Packet.RoundTrip.{Carries, packet_of, packet_of-Carries}
use libhdcp.Packet.Parse.{Packet}
use libhdcp.Master.Requests.{
  Request, fulfilled, timeout, new_request, command_id, find_request, find_command, inc_retry,
}
use libhdcp.Master.Requests
use libhdcp.Master.Manager.{Timer, max_retry}
use libhdcp.Master.Manager
use libhdcp.Master.Pending.{Distinct}
use libhdcp.Master.Answers.{ack_command_lem, on_cmd_timeout_lem}
use libhdcp.Packet.Make.{make_command}
use libhdcp.Packet.Constructors.{make_command-Carries}
use libhdcp.Master.Retries.{timeouts, timeouts_lem}
use libhdcp.Master.Ledger.{Ticket}
use libhdcp.Master.Accounts.{command, acknowledged, cmd_timeout, started, run, accepted, dropped}
use libhdcp.Master.Balance.{Balanced, Runs, none_yet, next, round, Runs-Balanced}
use libhdcp.Examples.Instances.{flag_thread, table_queue, pipe, pipe_takes}

abbrev Queue : TimeoutQueue Timer
Queue = table_queue Timer

abbrev command_block : BlockView
command_block = record { type = 5; content = 1 ∷ [] }

abbrev command_packet : Packet
command_packet = packet_of 7 cmd (command_block ∷ [])

abbrev ack_block : BlockView
ack_block = record { type = 5; content = le16 7 }

abbrev ack_packet : Packet
ack_packet = packet_of 1 cmd_ack (ack_block ∷ [])

command_packet-Carries : Carries command_packet 7 cmd (command_block ∷ [])
command_packet-Carries =
    packet_of-Carries 7 cmd (command_block ∷ []) (omega arith)
      (record { each = omega arith; few = omega arith; small = omega arith })

ack_packet-Carries : Carries ack_packet 1 cmd_ack (ack_block ∷ [])
ack_packet-Carries =
    packet_of-Carries 1 cmd_ack (ack_block ∷ []) (omega arith)
      (record { each = omega arith; few = omega arith; small = omega arith })

-- A request that was sent `n` times again.
abbrev request_with : ℕ → Request
request_with n = record (new_request 2 command_packet 0) { retry = n }

abbrev manager_with : ℕ → Manager.Manager flag_thread Queue pipe
manager_with n = record {
  thread = true;
  ended = false;
  requests = request_with n ∷ [];
  answers = [];
  timeout_queue = record { next = 3; entries = λ _. none };
  keepalive_mngt_id = 0;
  dip_id = 0;
  ka_ids = [];
  keepalive_mngt = true;
  now = 0;
  packet_id = 7;
  timeout_keepalive = 30;
  transport = record { opened = true; outbox = []; inbox = [] };
}

request-found : find_command 7 (manager_with 0).requests ≡ some (request_with 0)
unfolding Requests.find_command
request-found = rw command_packet-Carries.has_id

waiting-found : find_request 2 (manager_with 0).requests ≡ some (request_with 0)
unfolding Requests.find_request
waiting-found = refl

manager_with-Distinct : (n : ℕ) → Distinct (manager_with n).requests
unfolding Requests.find_request Requests.find_command
manager_with-Distinct n = (refl, refl, tt)

ack_command_lem_example :
    let m = manager_with 0 in
    let t = (Manager.ack_command flag_thread Queue pipe ack_packet m).1 in
    ((Manager.ack_command flag_thread Queue pipe ack_packet m).0 ≡ ok tt)
    × (t.answers ≡ record (request_with 0) { status = fulfilled; ack = some ack_packet } ∷ [])
    × (Queue.pending t.timeout_queue 2 ≡ none)
    × (Manager.ack_command flag_thread Queue pipe ack_packet t
        ≡ (err (application_error request_not_found), t))
ack_command_lem_example =
    ack_command_lem flag_thread Queue pipe ack_packet (manager_with 0) ack_block [] (request_with 0)
      ack_packet-Carries.has_blocks refl request-found (manager_with-Distinct 0)

-- The fourth timeout of the command.
on_cmd_timeout_lem_example :
    let m = manager_with 3 in
    let t = (Manager.on_cmd_timeout flag_thread Queue pipe 2 m).1 in
    ((find_request 2 m.requests ≡ none)
      × (Manager.on_cmd_timeout flag_thread Queue pipe 2 m
          ≡ (err (application_error request_not_found), m)))
    ⊎ ((r : Request) × (find_request 2 m.requests ≡ some r)
        × (r.retry < max_retry)
        × (find_request 2 t.requests ≡ some (record r { retry = r.retry + 1 }))
        × (t.answers ≡ m.answers))
    ⊎ ((r : Request) × (find_request 2 m.requests ≡ some r)
        × (max_retry ≤ r.retry)
        × (find_request 2 t.requests ≡ none)
        × (Queue.pending t.timeout_queue r.id ≡ none)
        × (t.answers ≡ m.answers ++ (record r { status = timeout } ∷ [])))
on_cmd_timeout_lem_example =
    on_cmd_timeout_lem flag_thread Queue pipe 2 (manager_with 3) (manager_with-Distinct 3)

abbrev closed_manager : Manager.Manager flag_thread Queue pipe
closed_manager = record (manager_with 0) {
  transport = record { opened = false; outbox = []; inbox = [] };
}

no_request-3 : find_request 3 (manager_with 0).requests ≡ none
unfolding Requests.find_request
no_request-3 = refl

no_command-8 : find_command 8 (manager_with 0).requests ≡ none
unfolding Requests.find_command
no_command-8 = rw command_packet-Carries.has_id refl

-- The next number, 7, belongs to the pending request: it is that of a command sent long ago.
abbrev wrapped_manager : Manager.Manager flag_thread Queue pipe
wrapped_manager = record (manager_with 0) { packet_id = 6 }

command_made :
    (p : Packet) × (make_command 8 5 (1 ∷ []) ≡ ok p) × Carries p 8 cmd (command_block ∷ [])
command_made = make_command-Carries 8 5 (1 ∷ []) (omega arith) (omega arith) (omega arith)

-- A second command is sent, the first times out and is acknowledged, and the manager starts anew.
abbrev second_sent : Manager.Manager flag_thread Queue pipe
second_sent = (run flag_thread Queue pipe (command 6 (2 ∷ []) 4 2000) (manager_with 0)).1

abbrev one_late : Manager.Manager flag_thread Queue pipe
one_late = (run flag_thread Queue pipe (cmd_timeout 2) second_sent).1

abbrev one_acknowledged : Manager.Manager flag_thread Queue pipe
one_acknowledged =
    (run flag_thread Queue pipe (acknowledged ack_packet)
      (Manager.run_round flag_thread Queue pipe one_late).1).1

abbrev restarted : Manager.Manager flag_thread Queue pipe
restarted = (run flag_thread Queue pipe started one_acknowledged).1

abbrev all_bought : List Ticket
all_bought = accepted flag_thread Queue pipe (command 6 (2 ∷ []) 4 2000) (manager_with 0) ++ []

abbrev all_lost : List Ticket
all_lost = dropped flag_thread Queue pipe started one_acknowledged ++ []

abbrev all_runs : Runs flag_thread Queue pipe (manager_with 0) all_bought all_lost restarted
all_runs = next started (
    next (acknowledged ack_packet)
      (round (next (cmd_timeout 2) (next (command 6 (2 ∷ []) 4 2000) none_yet))))

Runs-Balanced_example :
    Balanced flag_thread Queue pipe all_bought all_lost (manager_with 0) restarted
Runs-Balanced_example =
    Runs-Balanced flag_thread Queue pipe (manager_with 0) restarted all_bought all_lost all_runs

timeouts_lem_example :
    let m = manager_with 0 in
    let t = timeouts flag_thread Queue pipe pipe_takes 4 2 m in
    (t.answers ≡ record (request_with 3) { status = timeout } ∷ [])
    × (t.transport.outbox ≡ command_packet ∷ command_packet ∷ command_packet ∷ [])
    × (find_request 2 t.requests ≡ none)
    × (Queue.pending t.timeout_queue 2 ≡ none)
timeouts_lem_example =
    timeouts_lem flag_thread Queue pipe pipe_takes 2 (request_with 0) (manager_with 0) waiting-found
      refl (manager_with-Distinct 0) refl
