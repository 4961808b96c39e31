-- ===== src/Usb/Flight.antt =====
-- The transfers that are in flight, as src/usb_async.cpp has submitted them.
use libhdcp.Base.{
  ℕ, ◌≡◌, ◌≢◌, refl, suc, ◌+◌, ◌-◌, ◌==◌, ◌≤◌, arith, List, [], ◌∷◌, ◌++◌, if◌then◌else◌,
}
use libhdcp.Usb.Device.{without}

-- How often a transfer is in flight.
abbrev pub times : ℕ → List ℕ → ℕ
times i [] = 0
times i (j ∷ js) = if i == j then suc (times i js) else times i js

pub times-append : (i : ℕ) (xs ys : List ℕ) → times i (xs ++ ys) ≡ times i xs + times i ys
times-append i [] ys = omega arith
times-append i (x ∷ xs) ys = ground (arith, times-append i xs ys)

pub times-without : (i : ℕ) (xs : List ℕ) → times i (without i xs) ≡ times i xs - 1
times-without i [] = omega arith
times-without i (x ∷ xs) = ground (arith, times-without i xs)

pub times-without_other : (i j : ℕ) (xs : List ℕ) → i ≢ j → times j (without i xs) ≡ times j xs
times-without_other i j [] n = refl
times-without_other i j (x ∷ xs) n = ground (arith, times-without_other i j xs n)

pub times-without_le : (i j : ℕ) (xs : List ℕ) → times j (without i xs) ≤ times j xs
times-without_le i j [] = omega arith
times-without_le i j (x ∷ xs) = ground (arith, times-without_le i j xs)
