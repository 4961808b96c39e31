-- ===== src/Master/Connecting.antt =====
-- How a master of src/master.cpp tries to connect, and what `connect` makes of it.
use libhdcp.Base.{ℕ, ◌≡◌, ◌≢◌, refl, ◌∙◌, true, false, err, application_error, connection_failed}
use libhdcp.Base.State.{M, ◌>>=◌}
use libhdcp.Interfaces.{Thread, TimeoutQueue, EventMngr, Transport}
use libhdcp.Packet.Parse.{Packet, type}
use libhdcp.Master.Manager.{Timer}
use libhdcp.Master.Manager
use libhdcp.Master.Machine.{
  State, disconnected, connecting, Event, connection_requested, connection_attempt,
  dip_timeout_event, Transition,
}
use libhdcp.Master.Machine
use libhdcp.Master.Engine

module _ (H : Thread) (Q : TimeoutQueue Timer) (V : EventMngr Event) (X : Transport) where
  abbrev Master : Type 0
  Master = Machine.Master H Q V X

  -- An attempt to connect that ends in the state disconnected leaves its event behind: a `connect`
  -- that follows, whose request is notified, need not wait, and throws `connection_failed` before
  -- the request was taken up.
  pub connect_lem :
      (s : Master)
      → s.state ≡ connecting
      → let t = Engine.async_connect H Q V X (Machine.transition H Q V X disconnected s) in
        (t.state ≡ disconnected)
        × (V.contains connection_requested t.events ≡ true)
        × (V.contains connection_attempt t.events ≡ true)
        × ((Engine.finish_connect H Q V X t).0 ≡ err (application_error connection_failed))
  unfolding Engine.async_connect Machine.transition Engine.finish_connect
  connect_lem s h =
      let attempted = V.notify connection_attempt s.events in
      let other : connection_attempt ≢ connection_requested = λ e. cc in
      rw h (
        refl,
        V.contains-notify connection_requested attempted,
        V.contains-notify_other connection_requested connection_attempt attempted other
            ∙ V.contains-notify connection_attempt s.events,
        refl,
      )

  -- So many attempts were made, and the event of the last timeout is gone.
  abbrev Tried : ℕ → Master → Type 0
  Tried n s = (s.connection_attempts ≡ n) × (V.contains dip_timeout_event s.events ≡ false)

  abbrev receive : M Master (Unit {0})
  receive =
      Machine.read H Q V X
      >>= Machine.for_packet H Q V X (λ p. Machine.receive_connecting H Q V X (type p) p)
