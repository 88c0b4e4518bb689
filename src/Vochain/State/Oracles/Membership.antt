-- ===== src/Vochain/State/Oracles/Membership.antt =====
-- The oracle list under AddOracle and RemoveOracle.
use go_dvote.Prelude.{
  Bytes, List, contains, ◌≡◌, ◌++◌, ◌∷◌, arith, [], false, bytes_eq_refl, ok, bytes_eq_iff, ◌||◌,
  refl, bytes_eq, true,
}
use go_dvote.Vochain.State.Oracles.{
  remove_first, ChainState, stored_oracles, add_oracle, remove_oracle, trim_hex, TreeName,
  oracle_key, oracles,
}
use go_dvote.Vochain.Deps.{Deps}
use go_dvote.Vochain.State.Laws.{unmarshal-Stored, Stored, Stored-of_ok}

-- No oracle is listed twice.
abbrev pub IsDistinct : List Bytes → Type 0
IsDistinct [] = Unit
IsDistinct (x ∷ xs) = (contains x xs ≡ false) × IsDistinct xs

pub contains-append_one :
    (a x : Bytes) (l : List Bytes) → contains a (l ++ x ∷ []) ≡ (contains a l || bytes_eq x a)
unfolding contains
contains-append_one a x [] = ground arith
contains-append_one a x (y ∷ l) = ground (arith, contains-append_one a x l)

pub remove_first-append_one :
    (a : Bytes) (l : List Bytes) → contains a l ≡ false → remove_first a (l ++ a ∷ []) ≡ l
unfolding contains remove_first
remove_first-append_one a [] h = ground (arith, bytes_eq_refl a)
remove_first-append_one a (x ∷ l) h = ground (arith, remove_first-append_one a l)

append_one-IsDistinct :
    (a : Bytes) (l : List Bytes) → contains a l ≡ false → IsDistinct l → IsDistinct (l ++ a ∷ [])
unfolding contains
append_one-IsDistinct a [] h d = ground arith
append_one-IsDistinct a (x ∷ l) h d = ground (
  arith,
  append_one-IsDistinct a l,
  contains-append_one x a l,
  bytes_eq_iff x a,
  bytes_eq_iff a x,
)

contains-remove_first_le :
    (a b : Bytes) (l : List Bytes) → contains b l ≡ false → contains b (remove_first a l) ≡ false
unfolding contains remove_first
contains-remove_first_le a b [] h = refl
contains-remove_first_le a b (x ∷ l) h = ground (arith, contains-remove_first_le a b l)

remove_first-IsDistinct :
    (a : Bytes) (l : List Bytes) → IsDistinct l → IsDistinct (remove_first a l)
unfolding remove_first
remove_first-IsDistinct a [] d = tt
remove_first-IsDistinct a (x ∷ l) d =
    ground (arith, remove_first-IsDistinct a l d.1, contains-remove_first_le a x l)

contains-remove_first :
    (a : Bytes) (l : List Bytes) → IsDistinct l → contains a (remove_first a l) ≡ false
unfolding contains remove_first
contains-remove_first a [] d = refl
contains-remove_first a (x ∷ l) d = ground (arith, contains-remove_first a l d.1, bytes_eq_iff x a)

module _ (X : Deps) (address : Bytes) (s s' : ChainState X) where
  module _ (h : add_oracle X address s ≡ (ok tt, s')) where
    add_oracle_fresh : contains (trim_hex address) (stored_oracles X s) ≡ false
    unfolding add_oracle
    add_oracle_fresh = ground arith

    add_oracle-Stored :
        Stored X X.oracles_codec
          (stored_oracles X s ++ trim_hex address ∷ [])
          TreeName.app_tree
          oracle_key
          s
          s'
    unfolding add_oracle
    add_oracle-Stored =
        Stored-of_ok X X.oracles_codec _ TreeName.app_tree oracle_key s s' (ground arith)

    -- AddOracle succeeds only for an address that is not listed. It appends the address, without
    -- its 0x, to the list that Oracles then returns, and calls no listener.
    pub oracles-add_oracle :
        (contains (trim_hex address) (stored_oracles X s) ≡ false)
        × (oracles X false s' ≡ ok (stored_oracles X s ++ trim_hex address ∷ []))
        × (s'.calls ≡ s.calls)
    unfolding oracles
    oracles-add_oracle = (
      add_oracle_fresh,
      unmarshal-Stored X X.oracles_codec _ TreeName.app_tree oracle_key s add_oracle-Stored,
      add_oracle-Stored.same_calls,
    )

  module _ (h : remove_oracle X address s ≡ (ok tt, s')) where
    remove_oracle_listed : contains (trim_hex address) (stored_oracles X s) ≡ true
    unfolding remove_oracle
    remove_oracle_listed = ground arith

    remove_oracle-Stored :
        Stored X X.oracles_codec
          (remove_first (trim_hex address) (stored_oracles X s))
          TreeName.app_tree
          oracle_key
          s
          s'
    unfolding remove_oracle
    remove_oracle-Stored =
        Stored-of_ok X X.oracles_codec _ TreeName.app_tree oracle_key s s' (ground arith)

    oracles-remove_oracle :
        oracles X false s' ≡ ok (remove_first (trim_hex address) (stored_oracles X s))
    unfolding oracles
    oracles-remove_oracle =
        unmarshal-Stored X X.oracles_codec _ TreeName.app_tree oracle_key s remove_oracle-Stored

-- The stored list is what Oracles returns, where that succeeds.
stored_oracles-of_ok :
    (X : Deps) (s : ChainState X) (l : List Bytes)
    → oracles X false s ≡ ok l
    → stored_oracles X s ≡ l
unfolding oracles stored_oracles
stored_oracles-of_ok X s l h = rw h

-- Removing the address that was just added gives the old list back.
pub remove_oracle-add_oracle :
    (X : Deps) (address : Bytes) (s s1 s2 : ChainState X)
    → add_oracle X address s ≡ (ok tt, s1)
    → remove_oracle X address s1 ≡ (ok tt, s2)
    → oracles X false s2 ≡ ok (stored_oracles X s)
remove_oracle-add_oracle X address s s1 s2 h1 h2 =
    let (fresh, listed, _) = oracles-add_oracle X address s s1 h1 in
    let l1 = stored_oracles-of_ok X s1 _ listed in
    rw (oracles-remove_oracle X address s1 s2 h2, l1, remove_first-append_one _ _ fresh)

-- The list stays free of duplicates under AddOracle and RemoveOracle, and an oracle that was
-- removed from such a list is no longer in it.
pub oracle_changes-IsDistinct :
    (X : Deps) (address : Bytes) (s s1 s2 : ChainState X)
    → IsDistinct (stored_oracles X s)
    → add_oracle X address s ≡ (ok tt, s1)
    → remove_oracle X address s ≡ (ok tt, s2)
    → IsDistinct (stored_oracles X s1)
      × IsDistinct (stored_oracles X s2)
      × (contains (trim_hex address) (stored_oracles X s2) ≡ false)
oracle_changes-IsDistinct X address s s1 s2 d h1 h2 =
    let (fresh, listed, _) = oracles-add_oracle X address s s1 h1 in
    rw
      (
        stored_oracles-of_ok X s1 _ listed,
        stored_oracles-of_ok X s2 _ (oracles-remove_oracle X address s s2 h2),
      )
      (
        append_one-IsDistinct (trim_hex address) (stored_oracles X s) fresh d,
        remove_first-IsDistinct (trim_hex address) (stored_oracles X s) d,
        contains-remove_first (trim_hex address) (stored_oracles X s) d,
      )
