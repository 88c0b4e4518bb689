-- ===== src/Prelude/ByteStrings.antt =====
-- Go's `string` and `[]byte` as lists of byte values, with their equality. `codes` gives the bytes
-- of an ASCII literal.
use Prim.Native.Nat.{ℕ}
use Prim.Native.Char.{code}
use Prim.Native.String.{String}
use mathlib.Core.Path.{◌≡◌, refl}
use mathlib.Core.Logic.{◌↔◌}
use mathlib.Core.Bool.{Bool, true, false, ◌&&◌, ◌||◌}
use mathlib.Core.List.{List, [], ◌∷◌}
use native.Mathlib.Omega.{arith}
use go_dvote.Prelude.Tests.{◌==◌}

abbrev pub Bytes : Type 0
Bytes = List ℕ

abbrev pub codes : String → Bytes
codes String.[] = []
codes (String.◌∷◌ c s) = code c ∷ codes s

-- `len(s) > 0`
abbrev pub is_set : Bytes → Bool
is_set [] = false
is_set (c ∷ s) = true

-- `a == b` on strings, `bytes.Equal(a, b)`.
unfoldable pub bytes_eq : Bytes → Bytes → Bool
bytes_eq [] [] = true
bytes_eq [] (b ∷ bs) = false
bytes_eq (a ∷ as') [] = false
bytes_eq (a ∷ as') (b ∷ bs) = a == b && bytes_eq as' bs

pub bytes_eq→≡ : (a b : Bytes) → bytes_eq a b ≡ true → a ≡ b
unfolding bytes_eq
bytes_eq→≡ [] [] h = refl
bytes_eq→≡ [] (b ∷ bs) h = cc
bytes_eq→≡ (a ∷ as') [] h = cc
bytes_eq→≡ (a ∷ as') (b ∷ bs) h = ground (arith, bytes_eq→≡ as' bs)

pub bytes_eq_refl : (a : Bytes) → bytes_eq a a ≡ true
unfolding bytes_eq
bytes_eq_refl [] = refl
bytes_eq_refl (a ∷ as') = ground (arith, bytes_eq_refl as')

pub bytes_eq_iff : (a b : Bytes) → (bytes_eq a b ≡ true) ↔ (a ≡ b)
bytes_eq_iff a b = (bytes_eq→≡ a b, λ e. grind (arith, bytes_eq_refl a, e))

-- Whether a list of strings holds one.
unfoldable pub contains : Bytes → List Bytes → Bool
contains a [] = false
contains a (x ∷ xs) = bytes_eq x a || contains a xs
