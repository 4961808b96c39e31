-- ===== src/Master/Unknown.antt =====
-- A timer of src/master_request.cpp that belongs to no request: no callback of a timer changes
-- this.
use libhdcp.Base.{
  application_error, request_not_found, ℕ, ◌≡◌, refl, none, err, arith, ltb, Bool-cases,
  Option-cases, inl, inr,
}
use libhdcp.Base.State.{modify, ◌>>◌, Preserves, Preserves-seq}
use libhdcp.Interfaces.{Thread, TimeoutQueue, Transport}
use libhdcp.Master.Requests.{Request, find_request, inc_retry}
use libhdcp.Master.Manager.{Timer, Manager, cmd_timeout_cb, max_retry}
use libhdcp.Master.Manager
use libhdcp.Master.Pending.{find_request-inc_retry, find_request-erase_request}

module _ (H : Thread) (Q : TimeoutQueue Timer) (X : Transport) (i : ℕ) where
  abbrev Mgr : Type 0
  Mgr = Manager H Q X

  -- No request belongs to the timer.
  abbrev pub Unknown : Mgr → Type 0
  Unknown m = find_request i m.requests ≡ none

  -- Its own callback throws.
  pub Unknown-timeout :
      (m : Mgr)
      → Unknown m
      → Manager.on_cmd_timeout H Q X i m ≡ (err (application_error request_not_found), m)
  unfolding Manager.on_cmd_timeout
  Unknown-timeout m k = rw k refl

  pub reset-Unknown : (m : Mgr) → Unknown m → Unknown (Manager.reset_keepalive H Q X m)
  unfolding Manager.reset_keepalive
  reset-Unknown m k = ground arith

  retry-Unknown : (j : ℕ) (r : Request) → Preserves Unknown (Manager.retry_command H Q X j r)
  unfolding Manager.retry_command
  retry-Unknown j r =
      let send = Manager.if_open H Q X (Manager.write H Q X r.command) in
      Preserves-seq Unknown (modify (λ m. record m { requests = inc_retry j m.requests }))
        (send >> modify (Manager.reset_keepalive H Q X))
        (λ m k. find_request-inc_retry i j m.requests k)
        (Preserves-seq Unknown send (modify (Manager.reset_keepalive H Q X)) (λ m k. ground arith)
          reset-Unknown)

  pub on_cmd_timeout-Unknown : (j : ℕ) → Preserves Unknown (Manager.on_cmd_timeout H Q X j)
  unfolding Manager.on_cmd_timeout Manager.give_up
  on_cmd_timeout-Unknown j m k = elim (Option-cases (find_request j m.requests)) [
    | inl free ↦ rw free k
    | inr (r, found) ↦ elim (Bool-cases (ltb r.retry max_retry)) [
      | inl again ↦ rw (found, again) (retry-Unknown j r m k)
      | inr last ↦ rw (found, last) (find_request-erase_request i j m.requests k)
    ]
  ]

  pub on_ka_mngt_timeout-Unknown : Preserves Unknown (Manager.on_ka_mngt_timeout H Q X)
  unfolding Manager.on_ka_mngt_timeout Manager.await_keepalive Manager.send_keepalive
      Manager.make_next
  on_ka_mngt_timeout-Unknown m k = ground arith
