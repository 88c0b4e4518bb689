-- ===== src/Util/Split/Tests.antt =====
-- SplitBytes on five bytes, and on two chunks of two.
use go_dvote.Prelude.{Bytes, [], ◌∷◌, refl, arith, List, ◌≡◌, some, All, ◌<◌, length, ◌≤◌, ok}
use go_dvote.Util.Split.{split_bytes}
use go_dvote.Util.Split.Laws.{join, split_bytes-ends, split_bytes-join}
use go_dvote.Prelude.Int.{pos}

abbrev five : Bytes
five = 1 ∷ 2 ∷ 3 ∷ 4 ∷ 5 ∷ []

split_bytes-ends_example :
    (chunks : List Bytes) × (split_bytes five (pos 2) ≡ some (ok chunks))
    × (join chunks ≡ five)
    × All (λ c. (0 < length c) × (length c ≤ 2)) chunks
split_bytes-ends_example = split_bytes-ends 2 (omega arith) five

abbrev pairs : List Bytes
pairs = (1 ∷ 2 ∷ []) ∷ (3 ∷ 4 ∷ []) ∷ []

split_bytes-join_example : split_bytes (join pairs) (pos 2) ≡ some (ok pairs)
split_bytes-join_example = split_bytes-join 2 (omega arith) pairs (refl, (refl, tt))
