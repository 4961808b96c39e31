-- ===== src/Slave/Rejoin.antt =====
-- A slave of src/slave.cpp whose master connects anew while the session lasts.
use libhdcp.Base.{◌≡◌}
use libhdcp.Interfaces.{Thread, TimeoutQueue, EventMngr, Transport}
use libhdcp.Identity.{no_identification}
use libhdcp.Packet.Parse.{Packet}
use libhdcp.Slave.Manager.{Timer}
use libhdcp.Slave.Machine
use libhdcp.Slave.Handlers

module _ (H : Thread) (Q : TimeoutQueue Timer) (V : EventMngr Machine.Event) (X : Transport) where
  abbrev Slave : Type 0
  Slave = Machine.Slave H Q V X

  abbrev Forgotten : Slave → Type 0
  Forgotten s = s.master_id ≡ no_identification
