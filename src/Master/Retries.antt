-- ===== src/Master/Retries.antt =====
-- A command of src/master_request.cpp that nobody acknowledges: its timer ends again and again.
use libhdcp.Base.{
  ℕ, zero, suc, ◌+◌, ◌<◌, ◌≡◌, refl, ap, ◌∙◌, [], ◌∷◌, ◌++◌, true, false, some, none, ok, arith,
  ltb, append_assoc,
}
use libhdcp.Base.State.{modify, when, >>-ok}
use libhdcp.Interfaces.{Thread, TimeoutQueue, Transport, Takes}
use libhdcp.Master.Requests.{Request, timeout, find_request, inc_retry}
use libhdcp.Master.Manager.{Timer, Manager, max_retry}
use libhdcp.Master.Manager
use libhdcp.Master.Pending.{
  Distinct, find_request-erase_self, find_request-inc_self, inc_retry-Distinct,
}

module _ (H : Thread) (Q : TimeoutQueue Timer) (X : Transport) (K : Takes X) where
  abbrev Mgr : Type 0
  Mgr = Manager H Q X

  -- The timer ends `n` times.
  abbrev pub timeouts : ℕ → ℕ → Mgr → Mgr
  timeouts zero i m = m
  timeouts (suc n) i m = timeouts n i (Manager.on_cmd_timeout H Q X i m).1

  -- The request is pending, and packets can be sent.
  pub record IsWaiting (i : ℕ) (r : Request) (m : Mgr) : Type 0 where
    pub found : find_request i m.requests ≡ some r
    pub distinct : Distinct m.requests
    pub opened : X.is_open m.transport ≡ true

  -- What the timeout leaves when it sends the command again, but for the keep-alive's timer.
  abbrev sent_again : ℕ → Request → Mgr → Mgr
  sent_again i r m = record m {
    requests = inc_retry i m.requests;
    transport = (X.write r.command m.transport).1;
  }

  retry_lem :
      (i : ℕ) (r : Request) (m : Mgr)
      → X.is_open m.transport ≡ true
      → Manager.retry_command H Q X i r m
        ≡ (ok tt, Manager.reset_keepalive H Q X (sent_again i r m))
  unfolding Manager.retry_command
  retry_lem i r m opened =
      let s = record m { requests = inc_retry i m.requests } in
      let send = Manager.if_open H Q X (Manager.write H Q X r.command) in
      let sends : send s ≡ (ok tt, sent_again i r m) =
        ap (λ b. when b (Manager.write H Q X r.command) s) opened
        ∙ ap (λ x. (x, sent_again i r m)) (K.write_ok r.command m.transport opened) in
      >>-ok send (modify (Manager.reset_keepalive H Q X)) s (sent_again i r m) sends

  reset_lem :
      (m : Mgr)
      → let t = Manager.reset_keepalive H Q X m in
        (t.requests ≡ m.requests) × (t.answers ≡ m.answers) × (t.transport ≡ m.transport)
  unfolding Manager.reset_keepalive
  reset_lem m = ground arith

  -- A timeout before the last.
  again_lem :
      (i : ℕ) (r : Request) (m : Mgr)
      → IsWaiting i r m
      → r.retry < max_retry
      → let t = (Manager.on_cmd_timeout H Q X i m).1 in
        IsWaiting i (record r { retry = r.retry + 1 }) t
        × (t.answers ≡ m.answers)
        × (K.sent t.transport ≡ K.sent m.transport ++ (r.command ∷ []))
  unfolding Manager.on_cmd_timeout
  again_lem i r m w few =
      let again : ltb r.retry max_retry ≡ true = ground arith in
      let (requests, answers, transport) = reset_lem (sent_again i r m) in
      rw (w.found, again, retry_lem i r m w.opened)
        (
          record {
            found = rw requests (find_request-inc_self i m.requests r w.found);
            distinct = rw requests (inc_retry-Distinct i m.requests w.distinct);
            opened = rw transport (K.is_open-write r.command m.transport ∙ w.opened);
          },
          answers,
          rw transport (K.sent-write r.command m.transport w.opened),
        )

  -- The last timeout.
  last_lem :
      (i : ℕ) (r : Request) (m : Mgr)
      → IsWaiting i r m
      → r.retry ≡ max_retry
      → let t = (Manager.on_cmd_timeout H Q X i m).1 in
        (find_request i t.requests ≡ none)
        × (t.answers ≡ m.answers ++ (record r { status = timeout } ∷ []))
        × (K.sent t.transport ≡ K.sent m.transport)
        × (Q.pending t.timeout_queue r.id ≡ none)
  unfolding Manager.on_cmd_timeout Manager.give_up
  last_lem i r m w many =
      let enough : ltb r.retry max_retry ≡ false = ground arith in
      rw (w.found, enough)
        (
          find_request-erase_self i m.requests w.distinct,
          refl,
          refl,
          Q.pending-erase m.timeout_queue r.id,
        )

  -- A pending command that was sent once, with requests of unique keys and over an open transport
  -- that takes every packet, is sent three times again if nobody acknowledges it; the fourth
  -- timeout hands it to its callback, with the status `timeout`, and removes it and its timer.
  pub timeouts_lem :
      (i : ℕ) (r : Request) (m : Mgr)
      → find_request i m.requests ≡ some r
      → r.retry ≡ 0
      → Distinct m.requests
      → X.is_open m.transport ≡ true
      → let t = timeouts 4 i m in
        (t.answers ≡ m.answers ++ (record r { status = timeout; retry = 3 } ∷ []))
        × (K.sent t.transport ≡ K.sent m.transport ++ (r.command ∷ r.command ∷ r.command ∷ []))
        × (find_request i t.requests ≡ none)
        × (Q.pending t.timeout_queue r.id ≡ none)
  timeouts_lem i r m found first distinct opened =
      let after = λ (n : ℕ). record r { retry = n } in
      let w0 : IsWaiting i r m = record { found = found; distinct = distinct; opened = opened } in
      let (w1, a1, s1) = again_lem i r m w0 (omega (arith, first)) in
      let (w2, a2, s2) =
        again_lem i (after (r.retry + 1)) (timeouts 1 i m) w1 (omega (arith, first)) in
      let (w3, a3, s3) =
        again_lem i (after (r.retry + 1 + 1)) (timeouts 2 i m) w2 (omega (arith, first)) in
      let (gone, a4, s4, timer) =
        last_lem i (after (r.retry + 1 + 1 + 1)) (timeouts 3 i m) w3 (omega (arith, first)) in
      (
        a4
            ∙ ap (λ a. a ++ (record r { status = timeout; retry = r.retry + 1 + 1 + 1 } ∷ []))
                (a3 ∙ a2 ∙ a1)
            ∙ ap (λ n. m.answers ++ (record r { status = timeout; retry = n + 1 + 1 + 1 } ∷ []))
                first,
        s4
            ∙ s3
            ∙ ap (λ l. l ++ (r.command ∷ [])) (s2 ∙ ap (λ l. l ++ (r.command ∷ [])) s1)
            ∙ append_assoc (K.sent m.transport ++ (r.command ∷ [])) (r.command ∷ [])
                (r.command ∷ [])
            ∙ append_assoc (K.sent m.transport) (r.command ∷ []) (r.command ∷ r.command ∷ []),
        gone,
        timer,
      )
