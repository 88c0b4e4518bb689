-- ===== src/Prelude/Result.antt =====
-- The outcome of a Go call: a value, an `error`, or a run-time panic; and the actions on a state,
-- where what was written before an error stays written. Each constructor of `Error` stands for one
-- `error` value or message of the source.
use mathlib.Core.Path.{◌≡◌, refl}
use mathlib.Core.Logic.{◌⊎◌, inl, inr}
use mathlib.Core.Bool.{Bool, true, false}
use mathlib.Core.Option.{none, some}
use mathlib.Core.List.{List, [], ◌∷◌}
use go_dvote.Prelude.Errors.{Error}
use go_dvote.Prelude.Int.{ℤ, pos, negsuc}
use go_dvote.Prelude.Lists.{get_elem?, set, get_or, length, get_elem?-get_or, get_elem?-out}
use native.Mathlib.Omega.{arith}
use Prim.Native.Nat.{ℕ, ◌≤◌, ◌<◌}

pub data Res {ℓ} (A : Type ℓ) : Type ℓ where
  ok : A → Res A
  err : Error → Res A
  panic : Res A

abbrev pub bind_res {ℓ κ} : {A : Type ℓ} {B : Type κ} → Res A → (A → Res B) → Res B
bind_res (ok a) f = f a
bind_res (err e) f = err e
bind_res panic f = panic

-- Whether a call returned with a nil error.
abbrev pub is_ok {ℓ} : {A : Type ℓ} → Res A → Bool
is_ok (ok a) = true
is_ok (err e) = false
is_ok panic = false

-- The value of a call whose error the caller ignores, on a variable that held `d` before.
abbrev pub value_or {ℓ} : {A : Type ℓ} → Res A → A → A
value_or (ok a) d = a
value_or (err e) d = d
value_or panic d = d

-- A call whose error is replaced by a message of the caller's.
abbrev pub or_error {ℓ} : {A : Type ℓ} → Res A → Error → Res A
or_error (ok a) e = ok a
or_error (err _) e = err e
or_error panic e = panic

-- `for _, x := range xs { acc = step(acc, x) }`
abbrev pub for_each {ℓ κ} : {A : Type ℓ} {B : Type κ} → (B → A → B) → B → List A → B
for_each step acc [] = acc
for_each step acc (x ∷ xs) = for_each step (step acc x) xs

-- To split on the outcome of a call and keep the equation.
pub Res-cases {ℓ} :
    {A : Type ℓ} (r : Res A) → ((a : A) × (r ≡ ok a)) ⊎ ((e : Error) × (r ≡ err e)) ⊎ (r ≡ panic)
Res-cases (ok a) = inl (a, refl)
Res-cases (err e) = inr (inl (e, refl))
Res-cases panic = inr (inr refl)

-- `xs[i]`, which panics out of bounds.
unfoldable pub at_index {ℓ} : {A : Type ℓ} → List A → ℤ → Res A
at_index xs (pos i) = elim (get_elem? xs i) [ none ↦ panic | some x ↦ ok x ]
at_index xs (negsuc i) = panic

-- `xs[i] = v`, which panics out of bounds.
unfoldable pub set_index {ℓ} : {A : Type ℓ} → List A → ℤ → A → Res (List A)
set_index xs (pos i) v = elim (get_elem? xs i) [ none ↦ panic | some x ↦ ok (set xs i v) ]
set_index xs (negsuc i) v = panic

module _ {ℓ} {A : Type ℓ} (xs : List A) (i : ℕ) where
  pub at_index-in : (d : A) → i < length xs → at_index xs (pos i) ≡ ok (get_or xs i d)
  unfolding at_index
  at_index-in d h = rw (get_elem?-get_or xs i d h, at_index)

  pub at_index-out : length xs ≤ i → at_index xs (pos i) ≡ panic
  unfolding at_index
  at_index-out h = rw (get_elem?-out xs i h, at_index)

  pub set_index-in : (d v : A) → i < length xs → set_index xs (pos i) v ≡ ok (set xs i v)
  unfolding set_index
  set_index-in d v h = rw (get_elem?-get_or xs i d h, set_index)

-- Calls that read and write a state.
abbrev pub Exec : Type 0 → Type 0 → Type 0
Exec S A = S → Res A × S

module _ {S A : Type 0} where
  abbrev pub pure : A → Exec S A
  pure a s = (ok a, s)

  abbrev pub fail : Error → Exec S A
  fail e s = (err e, s)

  abbrev pub lift : Res A → Exec S A
  lift r s = (r, s)

  abbrev pub gets : (S → A) → Exec S A
  gets f s = (ok (f s), s)

  abbrev pub gets_res : (S → Res A) → Exec S A
  gets_res f s = (f s, s)

-- A `return` with an error under a condition.
abbrev pub fail_if : {S : Type 0} → Bool → Error → Exec S (Unit {0})
fail_if true e s = (err e, s)
fail_if false e s = (ok tt, s)

abbrev pub modify : {S : Type 0} → (S → S) → Exec S (Unit {0})
modify f s = (ok tt, f s)

infixl 5 ◌>>=◌ ◌>>◌
abbrev pub ◌>>=◌ : {S A B : Type 0} → Exec S A → (A → Exec S B) → Exec S B
◌>>=◌ m f s =
    let (r, s') = m s in elim r [ ok a ↦ f a s' | err e ↦ (err e, s') | panic ↦ (panic, s') ]

abbrev pub ◌>>◌ : {S A B : Type 0} → Exec S A → Exec S B → Exec S B
m >> k = m >>= λ _. k

-- An action that returned a value went through both of its halves.
module _ {S A B : Type 0} (f : A → Exec S B) (s' : S) (b : B) where
  resume-ok :
      (r : Res A × S)
      → (elim r.0 [ ok a ↦ f a r.1 | err e ↦ (err e, r.1) | panic ↦ (panic, r.1) ]) ≡ (ok b, s')
      → (a : A) × (s1 : S) × (r ≡ (ok a, s1)) × (f a s1 ≡ (ok b, s'))
  resume-ok (ok a, s1) h = (a, s1, refl, h)
  resume-ok (err e, s1) h = absurd (ground arith)
  resume-ok (panic, s1) h = absurd (ground arith)

  pub bind-ok :
      (m : Exec S A) (s : S)
      → (m >>= f) s ≡ (ok b, s')
      → (a : A) × (s1 : S) × (m s ≡ (ok a, s1)) × (f a s1 ≡ (ok b, s'))
  bind-ok m s h = resume-ok (m s) h
