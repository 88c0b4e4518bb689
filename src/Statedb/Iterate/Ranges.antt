-- ===== src/Statedb/Iterate/Ranges.antt =====
-- statedb/iavlstate/iavlstate.go: for which prefixes Iterate stays within the prefix.
use go_dvote.Prelude.{
  Bytes, List, [], ◌∷◌, ◌++◌, ℕ, suc, ◌≡◌, true, false, arith, ◌<◌, not, ◌&&◌, All, length, lookup,
  refl, if◌then◌else◌, bytes_eq_iff, ◌≤◌, Bool-cases, inl, inr,
}
use go_dvote.Statedb.Iterate.{all_ff, until_of, before, in_range, iterate}
use go_dvote.Db.{has_prefix}

all_ff-++ : (q : Bytes) (b : ℕ) → b < 255 → all_ff (q ++ b ∷ []) ≡ false
unfolding all_ff
all_ff-++ [] b h = ground arith
all_ff-++ (c ∷ q) b h = ground (arith, all_ff-++ q b h)

until_of-++ : (q : Bytes) (b : ℕ) → b < 255 → until_of (q ++ b ∷ []) ≡ q ++ suc b ∷ []
unfolding until_of all_ff
until_of-++ [] b h = ground arith
until_of-++ (c ∷ q) b h = ground (arith, all_ff-++ q b h, until_of-++ q b h)

between :
    (q : Bytes) (b : ℕ) (k : Bytes)
    → (not (before k (q ++ b ∷ [])) && before k (q ++ suc b ∷ [])) ≡ has_prefix (q ++ b ∷ []) k
unfolding before has_prefix
between [] b [] = ground arith
between [] b (c ∷ k) = ground arith
between (a ∷ q) b [] = ground arith
between (a ∷ q) b (c ∷ k) = ground (arith, between q b k)

-- Iterate on a prefix whose last byte is not 0xFF.
pub in_range-has_prefix :
    (q : Bytes) (b : ℕ) (k : Bytes)
    → b < 255
    → in_range (q ++ b ∷ []) k ≡ has_prefix (q ++ b ∷ []) k
unfolding in_range
in_range-has_prefix q b k h = rw (until_of-++ q b h) (between q b k)

all_ff-ff : (q : Bytes) (b : ℕ) → b < 255 → all_ff (q ++ b ∷ 255 ∷ []) ≡ false
unfolding all_ff
all_ff-ff [] b h = ground arith
all_ff-ff (c ∷ q) b h = ground (arith, all_ff-ff q b h)

until_of-ff : (q : Bytes) (b : ℕ) → b < 255 → until_of (q ++ b ∷ 255 ∷ []) ≡ q ++ suc b ∷ 255 ∷ []
unfolding until_of all_ff
until_of-ff [] b h = ground arith
until_of-ff (c ∷ q) b h = ground (arith, all_ff-ff q b h, until_of-ff q b h)

beyond :
    (q : Bytes) (b c : ℕ) (k : Bytes)
    → c < 255
    → (not (before (q ++ suc b ∷ c ∷ k) (q ++ b ∷ 255 ∷ []))
        && before (q ++ suc b ∷ c ∷ k) (q ++ suc b ∷ 255 ∷ []))
      ≡ true
unfolding before
beyond [] b c k h = ground arith
beyond (a ∷ q) b c k h = ground (arith, beyond q b c k h)

-- Iterate on a prefix whose last byte is 0xFF.
pub in_range-beyond :
    (q : Bytes) (b c : ℕ) (k : Bytes)
    → b < 255
    → c < 255
    → in_range (q ++ b ∷ 255 ∷ []) (q ++ suc b ∷ c ∷ k) ≡ true
unfolding in_range
in_range-beyond q b c k h h' = rw (until_of-ff q b h) (beyond q b c k h')

pub lookup-iterate :
    (prefix key : Bytes) (es : List (Bytes × Bytes))
    → in_range prefix key ≡ true
    → lookup key (iterate prefix es) ≡ lookup key es
unfolding lookup iterate
lookup-iterate prefix key [] h = refl
lookup-iterate prefix key ((j, v) ∷ es) h =
    ground (arith, h, bytes_eq_iff j key, lookup-iterate prefix key es h)

-- The pairs whose keys begin with a prefix.
unfoldable pub with_prefix : Bytes → List (Bytes × Bytes) → List (Bytes × Bytes)
with_prefix prefix [] = []
with_prefix prefix (e ∷ es) =
    let rest = with_prefix prefix es in if has_prefix prefix e.0 then e ∷ rest else rest

pub iterate-with_prefix :
    (q : Bytes) (b : ℕ) (es : List (Bytes × Bytes))
    → b < 255
    → iterate (q ++ b ∷ []) es ≡ with_prefix (q ++ b ∷ []) es
unfolding iterate with_prefix
iterate-with_prefix q b [] h = refl
iterate-with_prefix q b (e ∷ es) h =
    ground (arith, in_range-has_prefix q b e.0 h, iterate-with_prefix q b es h)

length-has_prefix : (p k : Bytes) → has_prefix p k ≡ true → length p ≤ length k
unfolding has_prefix
length-has_prefix [] k h = omega arith
length-has_prefix (a ∷ p) [] h = ground (arith, h)
length-has_prefix (a ∷ p) (c ∷ k) h = ground (arith, h, length-has_prefix p k)

pub long-with_prefix :
    (prefix : Bytes) (es : List (Bytes × Bytes))
    → All (λ e. length prefix ≤ length e.0) (with_prefix prefix es)
unfolding with_prefix
long-with_prefix prefix [] = tt
long-with_prefix prefix (e ∷ es) = elim (Bool-cases (has_prefix prefix e.0)) [
  | inl h ↦ rw (h, with_prefix) (length-has_prefix prefix e.0 h, long-with_prefix prefix es)
  | inr h ↦ rw (h, with_prefix) (long-with_prefix prefix es)
]

pub has_prefix-beyond :
    (q : Bytes) (b c : ℕ) (k : Bytes) → has_prefix (q ++ b ∷ 255 ∷ []) (q ++ suc b ∷ c ∷ k) ≡ false
unfolding has_prefix
has_prefix-beyond [] b c k = ground arith
has_prefix-beyond (a ∷ q) b c k = ground (arith, has_prefix-beyond q b c k)
