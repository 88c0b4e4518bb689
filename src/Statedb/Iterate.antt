-- ===== src/Statedb/Iterate.antt =====
-- statedb/iavlstate/iavlstate.go: the keys on which Iterate calls its callback.
pub mod Ranges
use go_dvote.Prelude.{
  Bytes, List, [], ◌∷◌, Bool, ◌&&◌, ◌||◌, not, ◌==◌, ltb, suc, true, false, if◌then◌else◌,
}

unfoldable pub all_ff : Bytes → Bool
all_ff [] = true
all_ff (b ∷ bs) = b == 0xFF && all_ff bs

-- The loop of Iterate over `until`: the last byte that is not 0xFF is increased, and the bytes
-- after it stay as they are.
unfoldable pub until_of : Bytes → Bytes
unfolding all_ff
until_of [] = []
until_of (b ∷ bs) =
    let rest = until_of bs in
    if not (all_ff bs) then b ∷ rest else if b == 0xFF then b ∷ bs else suc b ∷ bs

-- `bytes.Compare(a, b) < 0`
unfoldable pub before : Bytes → Bytes → Bool
before a [] = false
before [] (b ∷ bs) = true
before (a ∷ as') (b ∷ bs) = ltb a b || (a == b && before as' bs)

-- `IterateRange(prefix, until, true, callback)`: from the prefix on, and before `until`.
unfoldable pub in_range : Bytes → Bytes → Bool
unfolding until_of before
in_range prefix key = not (before key prefix) && before key (until_of prefix)

unfoldable pub iterate : Bytes → List (Bytes × Bytes) → List (Bytes × Bytes)
unfolding in_range
iterate prefix [] = []
iterate prefix (e ∷ es) =
    let rest = iterate prefix es in if in_range prefix e.0 then e ∷ rest else rest
