-- ===== src/Common/Action.antt =====
-- An asynchronous method as state and exception: the state comes back after a throw too, since what
-- was committed stays committed. A transaction is one step that fails whole.
use mathlib.Core.Bool.{Bool, true, false}
use mathlib.Core.Logic.{◌⊎◌, inl, inr}
use mathlib.Core.Option.{Option, none, some}
use mathlib.Core.Path.{◌≡◌, refl, sym, ap, ◌∙◌}

pub data Result (E : Type 0) (A : Type 0) : Type 0 where
  ok : A → Result E A
  err : E → Result E A

abbrev pub Action : Type 0 → Type 0 → Type 0 → Type 0
Action S E A = S → Result E A × S

pub Result-cases :
    {E A : Type 0} (r : Result E A) → ((a : A) × (r ≡ ok a)) ⊎ ((e : E) × (r ≡ err e))
Result-cases (ok a) = inl (a, refl)
Result-cases (err e) = inr (e, refl)

module _ {S E : Type 0} where
  abbrev pub pure : {A : Type 0} → A → Action S E A
  pure a s = (ok a, s)

  abbrev pub gets : {A : Type 0} → (S → A) → Action S E A
  gets f s = (ok (f s), s)

  -- `if (!test) throw e`
  abbrev pub ensure : Bool → E → Action S E (Unit {0})
  ensure true e s = (ok tt, s)
  ensure false e s = (err e, s)

  abbrev pub or_raise : {A : Type 0} → Option A → E → Action S E A
  or_raise none e s = (err e, s)
  or_raise (some a) e s = (ok a, s)

  -- What another service answered: a value, or the error that the caller throws.
  abbrev pub from_result : {A : Type 0} → Result E A → Action S E A
  from_result r s = (r, s)

  -- A transaction: its writes, or an error and no write.
  abbrev pub transaction : (S → Result E S) → Action S E (Unit {0})
  transaction f s = elim (f s) [ ok s' ↦ (ok tt, s') | err e ↦ (err e, s) ]

  -- A transaction of several steps, which reads what it wrote.
  abbrev pub atomic : {A : Type 0} → Action S E A → Action S E A
  atomic m s = let (r, s') = m s in elim r [ ok a ↦ (ok a, s') | err e ↦ (err e, s) ]

  infixl 5 ◌>>=◌ ◌>>◌
  abbrev pub ◌>>=◌ : {A B : Type 0} → Action S E A → (A → Action S E B) → Action S E B
  ◌>>=◌ m f s = let (r, s') = m s in elim r [ ok a ↦ f a s' | err e ↦ (err e, s') ]

  abbrev pub ◌>>◌ : {A B : Type 0} → Action S E A → Action S E B → Action S E B
  m >> k = m >>= λ _. k

  -- The rest of an action after a first part that returned, or that threw.
  pub >>=-ok :
      {A B : Type 0} (m : Action S E A) (f : A → Action S E B) (a : A) (s s' : S)
      → m s ≡ (ok a, s')
      → (m >>= f) s ≡ f a s'
  >>=-ok m f a s s' e = ap (λ p. elim p.0 [ ok b ↦ f b p.1 | err x ↦ (err x, p.1) ]) e

  pub >>=-err :
      {A B : Type 0} (m : Action S E A) (f : A → Action S E B) (x : E) (s s' : S)
      → m s ≡ (err x, s')
      → (m >>= f) s ≡ (err x, s')
  >>=-err m f x s s' e = ap (λ p. elim p.0 [ ok b ↦ f b p.1 | err y ↦ (err y, p.1) ]) e

  -- A bind that returned: its first part did, and the rest on what it gave.
  pub >>=-inv :
      {A B : Type 0} (m : Action S E A) (f : A → Action S E B) (b : B) (s s' : S)
      → (m >>= f) s ≡ (ok b, s')
      → (a : A) × (t : S) × (m s ≡ (ok a, t)) × (f a t ≡ (ok b, s'))
  >>=-inv m f b s s' e = elim (Result-cases (m s).0) [
    | inl (a, h) ↦
        let here : m s ≡ (ok a, (m s).1) = ap (λ r. (r, (m s).1)) h in
        (a, (m s).1, here, sym (>>=-ok m f a s (m s).1 here) ∙ e)
    | inr (x, h) ↦
        let k = >>=-err m f x s (m s).1 (ap (λ r. (r, (m s).1)) h) in
        let apart : err x ≡ ok b = ap (λ p. p.0) (sym k ∙ e) in cc
  ]

  -- A transaction that returned made the writes.
  pub transaction-inv :
      (f : S → Result E S) (a : Unit {0}) (s s' : S) → transaction f s ≡ (ok a, s') → f s ≡ ok s'
  transaction-inv f a s s' e = elim (Result-cases (f s)) [
    | inl (t, h) ↦
        let k : transaction f s ≡ (ok tt, t) =
          ap (λ r. elim r [ ok u ↦ (ok tt, u) | err x ↦ (err x, s) ]) h in
        h ∙ ap ok (ap (λ p. p.1) (sym k ∙ e))
    | inr (x, h) ↦
        let k : transaction f s ≡ (err x, s) =
          ap (λ r. elim r [ ok u ↦ (ok tt, u) | err y ↦ (err y, s) ]) h in
        let apart : err x ≡ ok a = ap (λ p. p.0) (sym k ∙ e) in cc
  ]

  pub atomic-ok :
      {A : Type 0} (m : Action S E A) (a : A) (s s' : S)
      → m s ≡ (ok a, s')
      → atomic m s ≡ (ok a, s')
  atomic-ok m a s s' e = ap (λ p. elim p.0 [ ok b ↦ (ok b, p.1) | err x ↦ (err x, s) ]) e

  pub atomic-inv :
      {A : Type 0} (m : Action S E A) (a : A) (s s' : S)
      → atomic m s ≡ (ok a, s')
      → m s ≡ (ok a, s')
  atomic-inv m a s s' e = elim (Result-cases (m s).0) [
    | inl (b, h) ↦
        let here : m s ≡ (ok b, (m s).1) = ap (λ r. (r, (m s).1)) h in
        here ∙ sym (atomic-ok m b s (m s).1 here) ∙ e
    | inr (x, h) ↦
        let k : atomic m s ≡ (err x, s) =
          ap (λ r. elim r [ ok b ↦ (ok b, (m s).1) | err y ↦ (err y, s) ]) h in
        let apart : err x ≡ ok a = ap (λ p. p.0) (sym k ∙ e) in cc
  ]

  -- A transaction of several steps keeps what they wrote, or nothing.
  pub atomic-cases :
      {A : Type 0} (m : Action S E A) (s : S)
      → ((a : A) × (atomic m s ≡ (ok a, (m s).1))) ⊎ ((atomic m s).1 ≡ s)
  atomic-cases m s = elim (Result-cases (m s).0) [
    | inl (a, h) ↦ inl (a, atomic-ok m a s (m s).1 (ap (λ r. (r, (m s).1)) h))
    | inr (x, h) ↦
        let k : atomic m s ≡ (err x, s) =
          ap (λ r. elim r [ ok b ↦ (ok b, (m s).1) | err y ↦ (err y, s) ]) h in
        inr (ap (λ p. p.1) k)
  ]
