-- ===== src/Master/Whole.antt =====
-- What every turn in the life of a master of src/master.cpp keeps of its manager.
use libhdcp.Base.{List, [], ◌++◌, arith}
use libhdcp.Interfaces.{Thread, TimeoutQueue, EventMngr, Transport}
use libhdcp.Master.Manager.{Timer, Manager}
use libhdcp.Master.Manager
use libhdcp.Master.Machine.{State, init, Event, Method, table}
use libhdcp.Master.Machine
use libhdcp.Master.Ledger.{Ticket}
use libhdcp.Master.Accounts.{
  Call, command, acknowledged, cmd_timeout, hip, keepalive_started, keepalive_stopped,
  ka_mngt_timeout, ka_acknowledged, dip_acknowledged, started, stopped, run, Same, send_hip-Same,
  on_ka_mngt-Same, start_keepalive-Same, accepted, dropped,
}
use libhdcp.Master.Balance.{Balanced, Runs, Runs-Balanced}
use libhdcp.Master.Balance
use libhdcp.Master.Unique.{
  Unique, send_command_keeps, ack_command_keeps, on_cmd_timeout_keeps, start_keeps,
}
use libhdcp.Master.Calls.{IsClosed}
use libhdcp.Master.Life.{Steps, Steps-keeps}

module _ (H : Thread) (Q : TimeoutQueue Timer) (V : EventMngr Event) (X : Transport) where
  abbrev Master : Type 0
  Master = Machine.Master H Q V X

  -- The manager has made a run of its calls.
  abbrev pub HasRun : Manager H Q X → Manager H Q X → Type 0
  HasRun m n =
      (bought : List Ticket) × (lost : List Ticket) × Runs H Q X m bought lost n
      × Balanced H Q X bought lost m n

  abbrev Ran : Manager H Q X → Manager H Q X → Type 0
  Ran m n = (bought : List Ticket) × (lost : List Ticket) × Runs H Q X m bought lost n

  Ran-IsClosed : (m : Manager H Q X) → IsClosed H Q V X (Ran m)
  Ran-IsClosed m = record {
    on_call =
        λ c n (b, l, runs). (accepted H Q X c n ++ b, dropped H Q X c n ++ l, Balance.next c runs);
    on_round = λ n (b, l, runs). (b, l, Balance.round runs);
    on_ended = λ n (b, l, runs). (b, l, Balance.ended runs);
    on_link = λ k n (b, l, runs). (b, l, Balance.linked k runs);
  }

  -- Whatever the turns, the manager's part in them is a run of calls of its methods: every command
  -- that it accepted is pending, was answered once, or was dropped by a start.
  pub Steps-HasRun : (s t : Master) → Steps H Q V X s t → HasRun s.manager t.manager
  Steps-HasRun s t steps =
      let (b, l, runs) =
        Steps-keeps H Q V X (Ran s.manager) (Ran-IsClosed s.manager) s t steps
          ([], [], Balance.none_yet) in
      (b, l, runs, Runs-Balanced H Q X s.manager t.manager b l runs)

  Same-Unique : (m t : Manager H Q X) → Same H Q X m t → Unique H Q X m → Unique H Q X t
  Same-Unique m t (rs, as_) k = rw rs k

  stop_keeps : (m : Manager H Q X) → Unique H Q X m → Unique H Q X (Manager.stop H Q X m)
  unfolding Manager.stop
  stop_keeps m k = ground arith

  round_keeps : (m : Manager H Q X) → Unique H Q X m → Unique H Q X (Manager.run_round H Q X m).1
  unfolding Manager.run_round
  round_keeps m k = ground arith

  call_keeps : (c : Call) (m : Manager H Q X) → Unique H Q X m → Unique H Q X (run H Q X c m).1
  unfolding Manager.stop_keepalive_management Manager.ack_keepalive Manager.ack_dip
  call_keeps (command type content callback delay) m k =
      send_command_keeps H Q X type content callback delay m k
  call_keeps (acknowledged p) m k = ack_command_keeps H Q X p m k
  call_keeps (cmd_timeout i) m k = on_cmd_timeout_keeps H Q X i m k
  call_keeps (hip id delay) m k =
      Same-Unique m (run H Q X (hip id delay) m).1 (send_hip-Same H Q X id delay m) k
  call_keeps (keepalive_started interval delay) m k =
      Same-Unique m (run H Q X (keepalive_started interval delay) m).1
        (start_keepalive-Same H Q X interval delay m) k
  call_keeps keepalive_stopped m k = k
  call_keeps ka_mngt_timeout m k =
      Same-Unique m (run H Q X ka_mngt_timeout m).1 (on_ka_mngt-Same H Q X m) k
  call_keeps ka_acknowledged m k = k
  call_keeps dip_acknowledged m k = k
  call_keeps started m k = start_keeps H Q X m k
  call_keeps stopped m k = stop_keeps m k

  -- Whatever the turns, no two pending commands share a timer or a number, if none did at first.
  pub Steps-Unique :
      (s t : Master) → Steps H Q V X s t → Unique H Q X s.manager → Unique H Q X t.manager
  Steps-Unique s t =
      Steps-keeps H Q V X (Unique H Q X)
        (record {
          on_call = call_keeps;
          on_round = round_keeps;
          on_ended = λ m k. k;
          on_link = λ l m k. k;
        })
        s t
