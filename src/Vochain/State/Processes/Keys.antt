-- ===== src/Vochain/State/Processes/Keys.antt =====
-- The keys of a process: which were added, which are revealed, and how they are counted.
use go_dvote.Prelude.{
  [], ℕ, ◌≡◌, false, refl, Bool, true, arith, ◌<◌, ◌≤◌, suc, ◌&&◌, is_set, length, ◌≢◌,
  if◌then◌else◌, not, get_or, Bool-cases, ◌||◌, ◌==◌, inr, inl,
}
use go_dvote.Types.{Process}
use Prim.Native.Nat.{zero}
use go_dvote.Types.Consts.{max_key_index}
use go_dvote.Prelude.Int.{pos}

-- The number of indices below `n` that pass a test.
unfoldable pub count_below : (ℕ → Bool) → ℕ → ℕ
count_below f zero = 0
count_below f (suc n) = let rest = count_below f n in if f n then suc rest else rest

pub count_below_le : (f : ℕ → Bool) (n : ℕ) → count_below f n ≤ n
unfolding count_below
count_below_le f zero = omega arith
count_below_le f (suc n) = ground (arith, count_below_le f n)

count_below_same :
    (f g : ℕ → Bool) (n : ℕ) → ((j : ℕ) → j < n → g j ≡ f j) → count_below g n ≡ count_below f n
unfolding count_below
count_below_same f g zero same = refl
count_below_same f g (suc n) same =
    let rest = count_below_same f g n (λ j h. same j (omega arith)) in
    let here = same n (omega arith) in ground (arith, rest, here)

-- One index more passes the test.
pub count_below_more :
    (f g : ℕ → Bool) (n i : ℕ)
    → i < n
    → f i ≡ false
    → g i ≡ true
    → ((j : ℕ) → i ≢ j → g j ≡ f j)
    → count_below g n ≡ suc (count_below f n)
unfolding count_below
count_below_more f g zero i h before after same = elim h [ ]
count_below_more f g (suc n) i h before after same = elim (Bool-cases (i == n)) [
  | inr ne ↦
      let rest = count_below_more f g n i (ground arith) before after same in
      let here = same n (λ e. ground arith) in ground (arith, rest, here)
  | inl e ↦
      let is_n : i ≡ n = ground arith in
      let rest = count_below_same f g n (λ j lt. same j (λ e'. omega arith)) in
      let here : f n ≡ false = rw is_n at before in
      let there : g n ≡ true = rw is_n at after in ground (arith, rest, here, there)
]

-- A key of an index was added, or revealed.
unfoldable pub is_used : Process → ℕ → Bool
is_used p i =
    is_set (get_or p.encryption_public_keys i []) || is_set (get_or p.commitment_keys i [])

unfoldable pub is_revealed : Process → ℕ → Bool
is_revealed p i =
    is_set (get_or p.encryption_private_keys i []) || is_set (get_or p.reveal_keys i [])

unfoldable pub is_pending : Process → ℕ → Bool
is_pending p i = is_used p i && not (is_revealed p i)

-- The four lists have `MaxKeyIndex` places, only what was added is revealed, and the key index is
-- the number of places that were added and are not revealed.
pub record KeysBalanced (p : Process) : Type 0 where
  pub publics_length : length p.encryption_public_keys ≡ max_key_index
  pub commitments_length : length p.commitment_keys ≡ max_key_index
  pub privates_length : length p.encryption_private_keys ≡ max_key_index
  pub reveals_length : length p.reveal_keys ≡ max_key_index
  pub revealed_used : (i : ℕ) → (is_revealed p i && not (is_used p i)) ≡ false
  pub counted : p.key_index ≡ pos (count_below (is_pending p) max_key_index)
