-- ===== src/Master/Ledger.antt =====
-- What becomes of the commands of src/master_request.cpp: the account of the requests.
use libhdcp.Base.{
  ℕ, ◌≡◌, refl, sym, ap, ◌∙◌, List, [], ◌∷◌, ◌++◌, some, Bool-cases, inl, inr, ◌==◌, append_assoc,
  append-nil,
}
use mathlib.Core.List.{Perm, perm_middle, perm_append_comm}
use mathlib.Core.List.Perm
use mathlib.Core.Path.{subst}
use libhdcp.Master.Requests.{
  Request, command_id, find_request, find_command, erase_request, erase_command, inc_retry,
}

-- What the application knows a command by: its timer, and the callback that it gave.
pub record Ticket : Type 0 where
  pub timer : ℕ
  pub callback : ℕ

abbrev pub ticket : Request → Ticket
ticket r = record { timer = r.id; callback = r.callback }

abbrev pub tickets : List Request → List Ticket
tickets [] = []
tickets (r ∷ rs) = ticket r ∷ tickets rs

pub tickets-append : (xs ys : List Request) → tickets (xs ++ ys) ≡ tickets xs ++ tickets ys
tickets-append [] ys = refl
tickets-append (r ∷ xs) ys = ap (λ ts. ticket r ∷ ts) (tickets-append xs ys)

pub tickets-inc_retry : (i : ℕ) (rs : List Request) → tickets (inc_retry i rs) ≡ tickets rs
unfolding inc_retry
tickets-inc_retry i [] = refl
tickets-inc_retry i (r ∷ rs) = elim (Bool-cases (r.id == i)) [
  | inl same ↦ rw same refl
  | inr other ↦ rw other (ap (λ ts. ticket r ∷ ts) (tickets-inc_retry i rs))
]

passed : (x y : Ticket) (xs ys : List Ticket) → Perm xs (y ∷ ys) → Perm (x ∷ xs) (y ∷ (x ∷ ys))
passed x y xs ys p = Perm.trans (Perm.cons x p) (perm_middle (x ∷ []) ys)

-- An erased request was there once more.
pub tickets-erase_command :
    (n : ℕ) (rs : List Request) (r : Request)
    → find_command n rs ≡ some r
    → Perm (tickets rs) (ticket r ∷ tickets (erase_command n rs))
unfolding find_command erase_command
tickets-erase_command n [] r h = cc
tickets-erase_command n (q ∷ rs) r h = elim (Bool-cases (command_id q == n)) [
  | inl same ↦
      let found : some q ≡ some r = rw same at h in
      let here : q ≡ r = cc in rw (same, here) (Perm.refl _)
  | inr other ↦
      let found : find_command n rs ≡ some r = rw other at h in
      rw other (
        passed (ticket q) (ticket r) (tickets rs) (tickets (erase_command n rs))
          (tickets-erase_command n rs r found))
]

pub tickets-erase_request :
    (i : ℕ) (rs : List Request) (r : Request)
    → find_request i rs ≡ some r
    → Perm (tickets rs) (ticket r ∷ tickets (erase_request i rs))
unfolding find_request erase_request
tickets-erase_request i [] r h = cc
tickets-erase_request i (q ∷ rs) r h = elim (Bool-cases (q.id == i)) [
  | inl same ↦
      let found : some q ≡ some r = rw same at h in
      let here : q ≡ r = cc in rw (same, here) (Perm.refl _)
  | inr other ↦
      let found : find_request i rs ≡ some r = rw other at h in
      rw other (
        passed (ticket q) (ticket r) (tickets rs) (tickets (erase_request i rs))
          (tickets-erase_request i rs r found))
]

-- A request moves from those that are pending to those that are answered.
pub settled :
    (r a : Request) (rs rest answers : List Request)
    → ticket a ≡ ticket r
    → Perm (tickets rs) (ticket r ∷ tickets rest)
    → Perm (tickets rs ++ tickets answers) (tickets rest ++ tickets (answers ++ (a ∷ [])))
settled r a rs rest answers same p =
    let moved : tickets rest ++ tickets (answers ++ (a ∷ []))
        ≡ (tickets rest ++ tickets answers) ++ (ticket r ∷ []) =
      ap (λ ts. tickets rest ++ ts)
        (tickets-append answers (a ∷ []) ∙ ap (λ k. tickets answers ++ (k ∷ [])) same)
      ∙ sym (append_assoc (tickets rest) (tickets answers) (ticket r ∷ [])) in
    subst (Perm (tickets rs ++ tickets answers)) (sym moved) (
      Perm.trans (Perm.append_right (tickets answers) p) (
        Perm.symm (
          subst (λ ts. Perm ((tickets rest ++ tickets answers) ++ (ticket r ∷ [])) (ticket r ∷ ts))
            (append-nil (tickets rest ++ tickets answers))
            (perm_middle (tickets rest ++ tickets answers) []))))

-- What is added and what is lost in two turns is added up.
pub two_turns :
    (b c l k a u v : List Ticket)
    → Perm (b ++ a) (l ++ u)
    → Perm (c ++ u) (k ++ v)
    → Perm ((c ++ b) ++ a) ((k ++ l) ++ v)
two_turns b c l k a u v first second =
    rw (append_assoc c b a, append_assoc k l v)
      (Perm.trans (Perm.append_left c first)
        (Perm.trans (swapped c l u) (Perm.trans (Perm.append_left l second) (swapped l k v))))
  where
    swapped : (xs ys zs : List Ticket) → Perm (xs ++ (ys ++ zs)) (ys ++ (xs ++ zs))
    swapped xs ys zs =
        rw (sym (append_assoc xs ys zs), sym (append_assoc ys xs zs))
          (Perm.append_right zs (perm_append_comm xs ys))
