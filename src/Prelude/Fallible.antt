-- ===== src/Prelude/Fallible.antt =====
-- `do` blocks of calls that return a value or an error and write nothing.
use go_dvote.Prelude.Result.{Res, ok, err, bind_res}
use go_dvote.Prelude.Errors.{Error}
use mathlib.Core.Bool.{Bool, true, false}

infixl 5 ◌>>=◌ ◌>>◌
abbrev pub ◌>>=◌ {ℓ κ} : {A : Type ℓ} {B : Type κ} → Res A → (A → Res B) → Res B
m >>= f = bind_res m f

abbrev pub ◌>>◌ {ℓ κ} : {A : Type ℓ} {B : Type κ} → Res A → Res B → Res B
m >> r = bind_res m (λ _. r)

-- A `return` with an error under a condition.
abbrev pub reject_if : Bool → Error → Res (Unit {0})
reject_if true e = err e
reject_if false e = ok tt
