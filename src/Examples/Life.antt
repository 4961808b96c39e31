-- ===== src/Examples/Life.antt =====
-- A slave with simple libraries, at which the theorems on its events are applied.
use libhdcp.Base.{◌≡◌, refl, [], ◌∷◌, ◌++◌, true, false, arith, appli_code, ka_timeout}
use libhdcp.Slave.Manager.{Timer}
use libhdcp.Slave.Manager
use libhdcp.Slave.Machine.{
  State, Event, init, disconnected, connecting, connected, hip_received, first_ka_received,
  ka_timeout_event, check_ka_timeout, check_connected, check_hip_received, check_transport_closed,
}
use libhdcp.Slave.Machine
use libhdcp.Slave.Engine
use libhdcp.Slave.Rounds.{rounds}
use libhdcp.Slave.Watchdog.{watchdog_lem}
use libhdcp.Slave.Stale.{Waits, stale_lem}
use libhdcp.Slave.Stale
use libhdcp.Examples.Instances.{flag_thread, empty_table, pipe}
use libhdcp.Examples.Slave.{Queue, Events, link_with, manager_with, slave_in}

-- A connected slave that manages keep-alives, with a timeout of three seconds.
abbrev guarded : Machine.Slave flag_thread Queue Events pipe
guarded = record (slave_in connected []) {
  manager = record (manager_with []) {
    timeout_queue = (Queue.add empty_table 0 30 Manager.ka_timeout_cb).0;
    keepalive_mngt = true;
    timeout_keepalive = 30;
  };
}

watchdog_lem_example :
    let t =
      rounds flag_thread Queue Events pipe 31
        (Machine.on_manager flag_thread Queue Events pipe
          (Manager.keepalive flag_thread Queue pipe)
          guarded).1 in
    let u =
      Engine.run_entry flag_thread Queue Events pipe (disconnected, check_ka_timeout) false t in
    (Events.contains ka_timeout_event t.events ≡ true)
    × (u.state ≡ disconnected)
    × (u.status_calls ≡ (disconnected, appli_code ka_timeout) ∷ [])
watchdog_lem_example =
    watchdog_lem flag_thread Queue Events pipe 31 guarded refl refl (λ i other. ground arith) refl

-- The link closes before the check for a connection; a session later, there is no new keep-alive.
abbrev closing : Machine.Slave flag_thread Queue Events pipe
closing = record (slave_in connecting []) {
  events = λ e. true;
  manager = record (manager_with []) { transport = record (link_with []) { opened = false } };
}

abbrev closed : Machine.Slave flag_thread Queue Events pipe
closed =
    Engine.run_entry flag_thread Queue Events pipe (disconnected, check_transport_closed) false
      closing

abbrev invited : Machine.Slave flag_thread Queue Events pipe
invited =
    Engine.run_entry flag_thread Queue Events pipe (connecting, check_hip_received) false
      (Machine.set_link flag_thread Queue Events pipe (link_with []) closed)

invited-Waits : Waits flag_thread Queue Events pipe closing invited
unfolding Engine.run_entry Engine.call Engine.finish Machine.run_check_transport_closed
    Machine.transition
invited-Waits =
    Stale.called 2 (connecting, check_hip_received) false
      (Stale.linked (link_with []) (
        Stale.called 1 (disconnected, check_transport_closed) false Stale.none_yet refl (λ e. cc)
          (λ e. cc)))
      refl (λ e. cc) (λ e. cc)

stale_lem_example :
    let t =
      Engine.run_entry flag_thread Queue Events pipe (connected, check_connected) false invited in
    (t.state ≡ connected)
    × (t.status_calls ≡ invited.status_calls ++ ((connected, invited.errc) ∷ []))
stale_lem_example = stale_lem flag_thread Queue Events pipe closing invited false refl invited-Waits
