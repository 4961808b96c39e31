-- ===== src/Master/Balance.antt =====
-- Every method of the manager of src/master_request.cpp balances the account of the commands, and
-- so does any sequence of its calls.
use libhdcp.Base.{
  ℕ, ◌≡◌, refl, sym, ap, ◌∙◌, List, [], ◌∷◌, ◌++◌, not, ◌&&◌, some, Bool-cases, Option-cases,
  Result-cases, inl, inr, length, ltb, ◌==◌, if◌then◌else◌, is_ok, Result, ok, err, true,
}
use mathlib.Core.List.{Perm}
use mathlib.Core.List.Perm
use mathlib.Core.Path.{subst, ap₂}
use libhdcp.Interfaces.{Thread, TimeoutQueue, Transport}
use libhdcp.Packet.Format.{u16_at}
use libhdcp.Packet.Parse.{Packet, blocks}
use libhdcp.Slave.Manager.{first_block}
use libhdcp.Master.Requests.{
  Request, timeout, fulfilled, find_request, find_command, erase_request, erase_command,
}
use libhdcp.Master.Manager.{Timer, Manager, max_retry}
use libhdcp.Master.Manager
use libhdcp.Master.Answers.{retry_keeps}
use libhdcp.Master.Writing.{next_timer}
use libhdcp.Master.Ledger.{
  Ticket, tickets, tickets-inc_retry, tickets-erase_command, tickets-erase_request, two_turns,
  settled,
}
use libhdcp.Master.Accounts.{
  Call, command, acknowledged, cmd_timeout, hip, keepalive_started, keepalive_stopped,
  ka_mngt_timeout, ka_acknowledged, dip_acknowledged, started, stopped, run, accepted, dropped,
  account, Bought, Same-account, send_hip-Same, on_ka_mngt-Same, start_keepalive-Same,
  send_command-Bought,
}

module _ (H : Thread) (Q : TimeoutQueue Timer) (X : Transport) where
  abbrev Mgr : Type 0
  Mgr = Manager H Q X

  -- What was accepted and pending or answered before a call is so after it, or dropped.
  abbrev pub Balanced : List Ticket → List Ticket → Mgr → Mgr → Type 0
  Balanced bought lost m n = Perm (bought ++ account H Q X m) (lost ++ account H Q X n)

  Bought-Balanced :
      (m : Mgr) (k : Ticket) (r : Result (Unit {0})) (t : Mgr)
      → Bought H Q X m k (r, t)
      → Balanced (if is_ok r then k ∷ [] else []) [] m t
  Bought-Balanced m k (ok a) t (rs, as_) =
      subst (Perm (k ∷ account H Q X m)) (sym (ap₂ (λ r a. r ++ tickets a) rs as_)) (Perm.refl _)
  Bought-Balanced m k (err e) t (rs, as_) =
      subst (Perm (account H Q X m)) (sym (ap₂ (λ r a. r ++ tickets a) rs as_)) (Perm.refl _)

  unchanged : (m : Mgr) → Balanced [] [] m m
  unchanged m = Perm.refl (account H Q X m)

  ack_command-Balanced : (p : Packet) (m : Mgr) → Balanced [] [] m (Manager.ack_command H Q X p m).1
  unfolding Manager.ack_command
  ack_command-Balanced p m = elim (Result-cases (first_block (blocks p))) [
    | inr (e, none_first) ↦ rw none_first (unchanged m)
    | inl (b, first) ↦ elim (Bool-cases (not (length b.content == 2))) [
      | inl long ↦ rw (first, long) (unchanged m)
      | inr two ↦ elim (Option-cases (find_command (u16_at b.content 0) m.requests)) [
        | inl missing ↦ rw (first, two, missing, Manager.or_throw) (unchanged m)
        | inr (r, found) ↦
            let n = u16_at b.content 0 in
            rw (first, two, found)
              (settled r (record r { status = fulfilled; ack = some p }) m.requests
                (erase_command n m.requests) m.answers refl
                (tickets-erase_command n m.requests r found))
      ]
    ]
  ]

  retried : (i : ℕ) (r : Request) (m : Mgr) → Balanced [] [] m (Manager.retry_command H Q X i r m).1
  retried i r m =
      let (rs, as_) = retry_keeps H Q X i r m in
      subst (Perm (account H Q X m))
        (sym (ap₂ (λ q a. q ++ tickets a) (ap tickets rs ∙ tickets-inc_retry i m.requests) as_))
        (unchanged m)

  on_cmd_timeout-Balanced :
      (i : ℕ) (m : Mgr) → Balanced [] [] m (Manager.on_cmd_timeout H Q X i m).1
  unfolding Manager.on_cmd_timeout
  on_cmd_timeout-Balanced i m = elim (Option-cases (find_request i m.requests)) [
    | inl missing ↦ rw (missing, Manager.or_throw) (unchanged m)
    | inr (r, found) ↦ elim (Bool-cases (ltb r.retry max_retry)) [
      | inl few ↦ rw (found, few) (retried i r m)
      | inr many ↦
          rw (found, many)
            (settled r (record r { status = timeout }) m.requests (erase_request i m.requests)
              m.answers refl (tickets-erase_request i m.requests r found))
    ]
  ]

  start-Balanced : (m : Mgr) → Balanced [] (dropped H Q X started m) m (Manager.start H Q X m)
  unfolding Manager.start Manager.clear
  start-Balanced m = elim (Bool-cases (H.is_running m.thread)) [
    | inl on ↦ rw on (unchanged m)
    | inr off ↦ rw off (unchanged m)
  ]

  stop-Balanced : (m : Mgr) → Balanced [] [] m (Manager.stop H Q X m)
  unfolding Manager.stop
  stop-Balanced m = elim (Bool-cases (H.is_running m.thread)) [
    | inl on ↦ rw on (unchanged m)
    | inr off ↦ rw off (unchanged m)
  ]

  run-Balanced :
      (c : Call) (m : Mgr) → Balanced (accepted H Q X c m) (dropped H Q X c m) m (run H Q X c m).1
  unfolding Manager.stop_keepalive_management Manager.ack_keepalive Manager.ack_dip
  run-Balanced (command type content callback delay) m =
      let x = Manager.send_command H Q X type content callback delay m in
      let k : Ticket = record { timer = next_timer H Q X delay m; callback = callback } in
      Bought-Balanced m k x.0 x.1 (send_command-Bought H Q X type content callback delay m)
  run-Balanced (acknowledged p) m = ack_command-Balanced p m
  run-Balanced (cmd_timeout i) m = on_cmd_timeout-Balanced i m
  run-Balanced (hip id delay) m =
      Same-account H Q X m (run H Q X (hip id delay) m).1 (send_hip-Same H Q X id delay m)
  run-Balanced (keepalive_started interval delay) m =
      Same-account H Q X m (run H Q X (keepalive_started interval delay) m).1
        (start_keepalive-Same H Q X interval delay m)
  run-Balanced keepalive_stopped m = unchanged m
  run-Balanced ka_mngt_timeout m =
      Same-account H Q X m (run H Q X ka_mngt_timeout m).1 (on_ka_mngt-Same H Q X m)
  run-Balanced ka_acknowledged m = unchanged m
  run-Balanced dip_acknowledged m = unchanged m
  run-Balanced started m = start-Balanced m
  run-Balanced stopped m = stop-Balanced m

  -- Any number of calls, of rounds of the thread and of changes of the link, with the commands
  -- that were accepted and those that were dropped.
  pub data Runs (m : Mgr) : List Ticket → List Ticket → Mgr → Type 0 where
    none_yet : Runs m [] [] m
    next :
        {bought lost : List Ticket} {n : Mgr} (c : Call)
        → Runs m bought lost n
        → Runs m (accepted H Q X c n ++ bought) (dropped H Q X c n ++ lost) (run H Q X c n).1
    round :
        {bought lost : List Ticket} {n : Mgr}
        → Runs m bought lost n
        → Runs m bought lost (Manager.run_round H Q X n).1
    ended :
        {bought lost : List Ticket} {n : Mgr}
        → Runs m bought lost n
        → Runs m bought lost (record n { ended = true })
    linked :
        {bought lost : List Ticket} {n : Mgr} (l : X.Link)
        → Runs m bought lost n
        → Runs m bought lost (record n { transport = l })

  round_account : (m : Mgr) → account H Q X m ≡ account H Q X (Manager.run_round H Q X m).1
  unfolding Manager.run_round
  round_account m = elim (Bool-cases (H.is_running m.thread && not m.ended)) [
    | inl on ↦ rw on refl
    | inr off ↦ rw off refl
  ]

  -- No command is lost or answered twice, whatever the order of the calls: those that were
  -- accepted, with those that were pending or answered at first, are those that are pending or
  -- answered at the end and those that a start has dropped, each as many times.
  pub Runs-Balanced :
      (m n : Mgr) (bought lost : List Ticket) → Runs m bought lost n → Balanced bought lost m n
  Runs-Balanced m _ _ _ none_yet = unchanged m
  Runs-Balanced m _ _ _ (next {bought} {lost} {n} c runs) =
      two_turns bought (accepted H Q X c n) lost (dropped H Q X c n) (account H Q X m)
        (account H Q X n) (account H Q X (run H Q X c n).1) (Runs-Balanced m n bought lost runs)
        (run-Balanced c n)
  Runs-Balanced m _ _ _ (round {bought} {lost} {n} runs) =
      subst (λ a. Perm (bought ++ account H Q X m) (lost ++ a)) (round_account n)
        (Runs-Balanced m n bought lost runs)
  Runs-Balanced m _ _ _ (ended {bought} {lost} {n} runs) = Runs-Balanced m n bought lost runs
  Runs-Balanced m _ _ _ (linked {bought} {lost} {n} l runs) = Runs-Balanced m n bought lost runs
