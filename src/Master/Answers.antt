-- ===== src/Master/Answers.antt =====
-- How commands end in src/master_request.cpp: by an acknowledgement, or by the fourth timeout.
use libhdcp.Base.{
  ℕ, ◌+◌, ◌≤◌, ◌<◌, ◌≡◌, refl, ◌⊎◌, inl, inr, List, [], ◌∷◌, ◌++◌, false, not, ◌==◌, none, some, ok,
  err, application_error, request_not_found, arith, Bool-cases, Option-cases, length, ltb,
}
use libhdcp.Base.State.{modify, Preserves-seq, Preserves-when}
use libhdcp.Interfaces.{Thread, TimeoutQueue, Transport}
use libhdcp.Packet.Format.{BlockView, u16_at}
use libhdcp.Packet.Parse.{Packet, blocks}
use libhdcp.Master.Requests.{Request, timeout, fulfilled, find_request, find_command, inc_retry}
use libhdcp.Master.Manager.{Timer, Manager, max_retry}
use libhdcp.Master.Manager
use libhdcp.Master.Pending.{
  Distinct, find_request-erase_self, find_command-erase_self, find_request-inc_self,
}

module _ (H : Thread) (Q : TimeoutQueue Timer) (X : Transport) where
  abbrev Mgr : Type 0
  Mgr = Manager H Q X

  -- The acknowledgement of a pending command hands its request, fulfilled and with the packet, to
  -- its callback, once: then the request and its timeout are gone, and the same acknowledgement
  -- is refused.
  pub ack_command_lem :
      (p : Packet) (m : Mgr) (b : BlockView) (rest : List BlockView) (r : Request)
      → blocks p ≡ b ∷ rest
      → length b.content ≡ 2
      → find_command (u16_at b.content 0) m.requests ≡ some r
      → Distinct m.requests
      → let t = (Manager.ack_command H Q X p m).1 in
        ((Manager.ack_command H Q X p m).0 ≡ ok tt)
        × (t.answers ≡ m.answers ++ (record r { status = fulfilled; ack = some p } ∷ []))
        × (Q.pending t.timeout_queue r.id ≡ none)
        × (Manager.ack_command H Q X p t ≡ (err (application_error request_not_found), t))
  unfolding Manager.ack_command
  ack_command_lem p m b rest r e size found d =
      let two : not (length b.content == 2) ≡ false = ground arith in
      let gone = find_command-erase_self (u16_at b.content 0) m.requests d in
      rw (e, two, found, gone) (refl, refl, Q.pending-erase m.timeout_queue r.id, refl)

  -- A second try changes the count alone, among the requests and the answers.
  pub retry_keeps :
      (i : ℕ) (r : Request) (m : Mgr)
      → ((Manager.retry_command H Q X i r m).1.requests ≡ inc_retry i m.requests)
        × ((Manager.retry_command H Q X i r m).1.answers ≡ m.answers)
  unfolding Manager.retry_command
  retry_keeps i r m =
      let P = λ (t : Mgr). (t.requests ≡ inc_retry i m.requests) × (t.answers ≡ m.answers) in
      Preserves-seq P (Manager.if_open H Q X (Manager.write H Q X r.command))
        (modify (Manager.reset_keepalive H Q X))
        (λ t h.
          Preserves-when P (X.is_open t.transport) (Manager.write H Q X r.command) (λ u k. k) t h)
        (λ t h. reset_keeps t h) (record m { requests = inc_retry i m.requests }) (refl, refl)
    where
      reset_keeps :
          (t : Mgr)
          → (t.requests ≡ inc_retry i m.requests) × (t.answers ≡ m.answers)
          → ((Manager.reset_keepalive H Q X t).requests ≡ inc_retry i m.requests)
            × ((Manager.reset_keepalive H Q X t).answers ≡ m.answers)
      reset_keeps t h = ground arith

  -- Every branch of the timeout of a command: a timer without a request is refused; the first
  -- three timeouts of a request count one more try each; the next one hands it to its callback
  -- and removes it with its timer.
  pub on_cmd_timeout_lem :
      (i : ℕ) (m : Mgr)
      → Distinct m.requests
      → let t = (Manager.on_cmd_timeout H Q X i m).1 in
        ((find_request i m.requests ≡ none)
          × (Manager.on_cmd_timeout H Q X i m ≡ (err (application_error request_not_found), m)))
        ⊎ ((r : Request) × (find_request i m.requests ≡ some r)
            × (r.retry < max_retry)
            × (find_request i t.requests ≡ some (record r { retry = r.retry + 1 }))
            × (t.answers ≡ m.answers))
        ⊎ ((r : Request) × (find_request i m.requests ≡ some r)
            × (max_retry ≤ r.retry)
            × (find_request i t.requests ≡ none)
            × (Q.pending t.timeout_queue r.id ≡ none)
            × (t.answers ≡ m.answers ++ (record r { status = timeout } ∷ [])))
  unfolding Manager.on_cmd_timeout
  on_cmd_timeout_lem i m d = elim (Option-cases (find_request i m.requests)) [
    | inl missing ↦ inl (missing, rw (missing, Manager.or_throw))
    | inr (r, found) ↦ elim (Bool-cases (ltb r.retry max_retry)) [
      | inl few ↦
          let (kept, same) = retry_keeps i r m in
          inr (
            inl (
              r,
              found,
              ground arith,
              rw (found, few) (rw kept (find_request-inc_self i m.requests r found)),
              rw (found, few) same,
            ))
      | inr many ↦ inr (
          inr (
            r,
            found,
            ground arith,
            rw (found, many) (find_request-erase_self i m.requests d),
            rw (found, many) (Q.pending-erase m.timeout_queue r.id),
            rw (found, many),
          ))
    ]
  ]
