-- ===== src/Master/Pending.antt =====
-- The container of pending requests: its two keys stay unique.
use libhdcp.Base.{
  true, ◌≢◌, ◌⊎◌, Option-cases, ℕ, ◌+◌, ◌≡◌, refl, inl, inr, List, [], ◌∷◌, false, ◌==◌, none, some,
  arith, Bool-cases,
}
use libhdcp.Master.Requests.{
  Request, command_id, find_request, find_command, erase_request, erase_command, is_taken,
  inc_retry,
}

-- No two requests share a timer or the number of their command.
abbrev pub Distinct : List Request → Type 0
Distinct [] = Unit {0}
Distinct (r ∷ rs) =
    (find_request r.id rs ≡ none) × (find_command (command_id r) rs ≡ none) × Distinct rs

pub is_taken-false :
    (r : Request) (rs : List Request)
    → is_taken r rs ≡ false
    → (find_request r.id rs ≡ none) × (find_command (command_id r) rs ≡ none)
unfolding is_taken
is_taken-false r rs h = ground arith

pub is_taken-true :
    (r : Request) (rs : List Request)
    → is_taken r rs ≡ true
    → (find_request r.id rs ≢ none) ⊎ (find_command (command_id r) rs ≢ none)
unfolding is_taken
is_taken-true r rs h = elim (Option-cases (find_request r.id rs)) [
  | inl free ↦ inr (λ other. ground (arith, free, other, h))
  | inr (q, found) ↦ inl (λ free. cc (found, free))
]

pub find_request-erase_request :
    (i j : ℕ) (rs : List Request)
    → find_request i rs ≡ none
    → find_request i (erase_request j rs) ≡ none
unfolding find_request erase_request
find_request-erase_request i j [] h = refl
find_request-erase_request i j (r ∷ rs) h = ground (arith, find_request-erase_request i j rs)

find_command-erase_request :
    (n j : ℕ) (rs : List Request)
    → find_command n rs ≡ none
    → find_command n (erase_request j rs) ≡ none
unfolding find_command erase_request
find_command-erase_request n j [] h = refl
find_command-erase_request n j (r ∷ rs) h = ground (arith, find_command-erase_request n j rs)

find_request-erase_command :
    (i n : ℕ) (rs : List Request)
    → find_request i rs ≡ none
    → find_request i (erase_command n rs) ≡ none
unfolding find_request erase_command
find_request-erase_command i n [] h = refl
find_request-erase_command i n (r ∷ rs) h = ground (arith, find_request-erase_command i n rs)

find_command-erase_command :
    (n k : ℕ) (rs : List Request)
    → find_command n rs ≡ none
    → find_command n (erase_command k rs) ≡ none
unfolding find_command erase_command
find_command-erase_command n k [] h = refl
find_command-erase_command n k (r ∷ rs) h = ground (arith, find_command-erase_command n k rs)

pub find_request-inc_retry :
    (i j : ℕ) (rs : List Request)
    → find_request i rs ≡ none
    → find_request i (inc_retry j rs) ≡ none
unfolding find_request inc_retry
find_request-inc_retry i j [] h = refl
find_request-inc_retry i j (r ∷ rs) h = ground (arith, find_request-inc_retry i j rs)

find_command-inc_retry :
    (n j : ℕ) (rs : List Request)
    → find_command n rs ≡ none
    → find_command n (inc_retry j rs) ≡ none
unfolding find_command inc_retry
find_command-inc_retry n j [] h = refl
find_command-inc_retry n j (r ∷ rs) h = ground (arith, find_command-inc_retry n j rs)

pub erase_request-Distinct :
    (i : ℕ) (rs : List Request) → Distinct rs → Distinct (erase_request i rs)
unfolding erase_request
erase_request-Distinct i [] d = tt
erase_request-Distinct i (r ∷ rs) (a, b, d) = ground (
  arith,
  erase_request-Distinct i rs d,
  find_request-erase_request r.id i rs a,
  find_command-erase_request (command_id r) i rs b,
)

pub erase_command-Distinct :
    (n : ℕ) (rs : List Request) → Distinct rs → Distinct (erase_command n rs)
unfolding erase_command
erase_command-Distinct n [] d = tt
erase_command-Distinct n (r ∷ rs) (a, b, d) = ground (
  arith,
  erase_command-Distinct n rs d,
  find_request-erase_command r.id n rs a,
  find_command-erase_command (command_id r) n rs b,
)

pub inc_retry-Distinct : (i : ℕ) (rs : List Request) → Distinct rs → Distinct (inc_retry i rs)
unfolding inc_retry
inc_retry-Distinct i [] d = tt
inc_retry-Distinct i (r ∷ rs) (a, b, d) = ground (
  arith,
  inc_retry-Distinct i rs d,
  find_request-inc_retry r.id i rs a,
  find_command-inc_retry (command_id r) i rs b,
)

-- An erased key is gone: no other request had it.
pub find_request-erase_self :
    (i : ℕ) (rs : List Request) → Distinct rs → find_request i (erase_request i rs) ≡ none
unfolding find_request erase_request
find_request-erase_self i [] d = refl
find_request-erase_self i (r ∷ rs) (a, b, d) = elim (Bool-cases (r.id == i)) [
  | inl e ↦ let same : r.id ≡ i = ground arith in rw e (rw same at a)
  | inr e ↦ rw (e, find_request) (rw e (find_request-erase_self i rs d))
]

pub find_command-erase_self :
    (n : ℕ) (rs : List Request) → Distinct rs → find_command n (erase_command n rs) ≡ none
unfolding find_command erase_command
find_command-erase_self n [] d = refl
find_command-erase_self n (r ∷ rs) (a, b, d) = elim (Bool-cases (command_id r == n)) [
  | inl e ↦ let same : command_id r ≡ n = ground arith in rw e (rw same at b)
  | inr e ↦ rw (e, find_command) (rw e (find_command-erase_self n rs d))
]

-- A request that is tried again is found with one more try.
pub find_request-inc_self :
    (i : ℕ) (rs : List Request) (r : Request)
    → find_request i rs ≡ some r
    → find_request i (inc_retry i rs) ≡ some (record r { retry = r.retry + 1 })
unfolding find_request inc_retry
find_request-inc_self i [] r h = cc
find_request-inc_self i (q ∷ rs) r h = ground (arith, find_request-inc_self i rs r)
