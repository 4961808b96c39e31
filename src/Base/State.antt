-- ===== src/Base/State.antt =====
-- Methods of an object: a function of the object's state that returns or throws, and leaves a new
-- state either way.
use libhdcp.Base.{◌≡◌, Bool, true, false, Result, ok, err, Exception}

abbrev pub M : Type 0 → Type 0 → Type 0
M S A = S → Result A × S

module _ {S : Type 0} where
  abbrev pub pure : {A : Type 0} → A → M S A
  pure a s = (ok a, s)

  abbrev pub throw : {A : Type 0} → Exception → M S A
  throw e s = (err e, s)

  infixl 5 ◌>>=◌ ◌>>◌
  -- What follows a call that throws is not run.
  abbrev pub ◌>>=◌ : {A B : Type 0} → M S A → (A → M S B) → M S B
  ◌>>=◌ m f s = elim (m s).0 [ ok a ↦ f a (m s).1 | err e ↦ (err e, (m s).1) ]

  abbrev pub ◌>>◌ : {B : Type 0} → M S (Unit {0}) → M S B → M S B
  m >> k = m >>= λ _. k

  abbrev pub modify : (S → S) → M S (Unit {0})
  modify f s = (ok tt, f s)

  abbrev pub gets : {A : Type 0} → (S → A) → M S A
  gets f s = (ok (f s), s)

  -- A value that was computed, or its exception.
  abbrev pub lift : {A : Type 0} → Result A → M S A
  lift r s = (r, s)

  -- `if (test) body`
  abbrev pub when : Bool → M S (Unit {0}) → M S (Unit {0})
  when true m = m
  when false m = pure tt

module _ {S B : Type 0} where
  -- A call that returns a value is followed by the rest on it.
  pub >>=-ok :
      {A : Type 0} (m : M S A) (k : A → M S B) (s s' : S) (a : A)
      → m s ≡ (ok a, s')
      → (m >>= k) s ≡ k a s'
  >>=-ok m k s s' a e i = elim (e i).0 [ ok b ↦ k b (e i).1 | err y ↦ (err y, (e i).1) ]

  -- A call for a value that throws is the last.
  pub >>=-err :
      {A : Type 0} (m : M S A) (k : A → M S B) (s s' : S) (x : Exception)
      → m s ≡ (err x, s')
      → (m >>= k) s ≡ (err x, s')
  >>=-err m k s s' x e i = elim (e i).0 [ ok b ↦ k b (e i).1 | err y ↦ (err y, (e i).1) ]

  -- A call that returns is followed by the rest.
  pub >>-ok : (m : M S (Unit {0})) (k : M S B) (s s' : S) → m s ≡ (ok tt, s') → (m >> k) s ≡ k s'
  >>-ok m k s s' e i = elim (e i).0 [ ok a ↦ k (e i).1 | err y ↦ (err y, (e i).1) ]

  -- A call that throws is the last.
  pub >>-err :
      (m : M S (Unit {0})) (k : M S B) (s s' : S) (x : Exception)
      → m s ≡ (err x, s')
      → (m >> k) s ≡ (err x, s')
  >>-err m k s s' x e i = elim (e i).0 [ ok a ↦ k (e i).1 | err y ↦ (err y, (e i).1) ]

-- `P` holds after the call if it holds before, whether the call returns or throws.
abbrev pub Preserves : {S A : Type 0} → (S → Type 0) → M S A → Type 0
Preserves {S} P m = (s : S) → P s → P (m s).1

module _ {S : Type 0} (P : S → Type 0) where
  after_bind :
      {A B : Type 0} (r : Result A) (t : S) (k : A → M S B)
      → P t
      → ((a : A) → P (k a t).1)
      → P (((λ _. (r, t)) >>= k) t).1
  after_bind (ok a) t k h hk = hk a
  after_bind (err e) t k h hk = h

  pub Preserves-bind :
      {A B : Type 0} (m : M S A) (k : A → M S B)
      → Preserves P m
      → ((a : A) → Preserves P (k a))
      → Preserves P (m >>= k)
  Preserves-bind m k pm pk s h = after_bind (m s).0 (m s).1 k (pm s h) (λ a. pk a (m s).1 (pm s h))

  pub Preserves-seq :
      {B : Type 0} (m : M S (Unit {0})) (k : M S B)
      → Preserves P m
      → Preserves P k
      → Preserves P (m >> k)
  Preserves-seq m k pm pk = Preserves-bind m (λ _. k) pm (λ _. pk)

  -- What the first call establishes, the rest keeps.
  pub after_seq :
      {B : Type 0} (m : M S (Unit {0})) (k : M S B) (s : S)
      → P (m s).1
      → Preserves P k
      → P ((m >> k) s).1
  after_seq m k s h pk = after_bind (m s).0 (m s).1 (λ _. k) h (λ _. pk (m s).1 h)

  pub Preserves-when : (b : Bool) (m : M S (Unit {0})) → Preserves P m → Preserves P (when b m)
  Preserves-when true m pm s h = pm s h
  Preserves-when false m pm s h = h

-- `R` holds of what the call returns, if it returns.
abbrev pub Returns : {S A : Type 0} → (A → Type 0) → M S A → Type 0
Returns {S} {A} R m = (s : S) (a : A) → (m s).0 ≡ ok a → R a

module _ {S A : Type 0} (R : A → Type 0) where
  result_bind :
      {B : Type 0} (r : Result B) (t : S) (k : B → M S A) (a : A)
      → (((λ _. (r, t)) >>= k) t).0 ≡ ok a
      → ((b : B) → Returns R (k b))
      → R a
  result_bind (ok b) t k a h hk = hk b t a h
  result_bind (err e) t k a h hk = cc

  pub Returns-bind :
      {B : Type 0} (m : M S B) (k : B → M S A) → ((b : B) → Returns R (k b)) → Returns R (m >>= k)
  Returns-bind m k hk s a h = result_bind (m s).0 (m s).1 k a h hk

  pub Returns-seq : (m : M S (Unit {0})) (k : M S A) → Returns R k → Returns R (m >> k)
  Returns-seq m k hk = Returns-bind m (λ _. k) (λ _. hk)

-- What holds of the rest after each value, and of each exception, holds of both together.
pub after_call :
    {S A B : Type 0} (P : Result B × S → Type 0) (r : Result A) (t : S) (k : A → M S B)
    → ((a : A) → P (k a t))
    → ((e : Exception) → P (err e, t))
    → P (((λ _. (r, t)) >>= k) t)
after_call P (ok a) t k returns throws = returns a
after_call P (err e) t k returns throws = throws e
