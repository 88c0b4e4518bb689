-- ===== src/Prelude/Keeps.antt =====
-- A relation between the states before and after an action, however it ends, put together from those
-- of its parts.
use go_dvote.Prelude.Result.{Res, ok, err, panic, Exec, ◌>>=◌, ◌>>◌}
use mathlib.Core.Bool.{Bool, true, false}
use go_dvote.Prelude.Tests.{if◌then◌else◌}

module _ {S : Type 0} (R : S → S → Type 0) where
  abbrev pub Keeps : {A : Type 0} → Exec S A → Type 0
  Keeps m = (s : S) → R s (m s).1

  module _ (transitive : (s t u : S) → R s t → R t u → R s u) where
    Keeps-resume :
        {A B : Type 0} (f : A → Exec S B) (s : S) (r : Res A × S)
        → R s r.1
        → ((a : A) → Keeps (f a))
        → R s
            (elim r.0 as (λ _. Res B × S) [
              | ok a ↦ f a r.1
              | err e ↦ (err e, r.1)
              | panic ↦ (panic, r.1)
            ]).1
    Keeps-resume f s (ok a, t) first next = transitive s t (f a t).1 first (next a t)
    Keeps-resume f s (err e, t) first next = first
    Keeps-resume f s (panic, t) first next = first

    pub Keeps->>= :
        {A B : Type 0} (m : Exec S A) (f : A → Exec S B)
        → Keeps m
        → ((a : A) → Keeps (f a))
        → Keeps (m >>= f)
    Keeps->>= m f first next s = Keeps-resume f s (m s) (first s) next

    pub Keeps->> :
        {A B : Type 0} (m : Exec S A) (m' : Exec S B) → Keeps m → Keeps m' → Keeps (m >> m')
    Keeps->> m m' first next = Keeps->>= m (λ a. m') first (λ a. next)

  pub Keeps-if :
      {A : Type 0} (c : Bool) (m m' : Exec S A) → Keeps m → Keeps m' → Keeps (if c then m else m')
  Keeps-if true m m' k k' = k
  Keeps-if false m m' k k' = k'
