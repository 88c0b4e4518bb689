-- ===== src/Vochain/State/Oracles.antt =====
-- vochain/state.go: the oracles, a list under one key of the application tree.
pub mod Membership
use go_dvote.Prelude.{
  Bytes, List, [], ◌∷◌, Bool, if◌then◌else◌, false, bytes_eq, Exec, value_or, Res, ◌>>=◌, gets,
  ◌>>◌, fail_if, not, oracle_not_found, oracle_already_added, ◌++◌, contains,
}
use go_dvote.Vochain.Deps.{Deps}
use go_dvote.Vochain.State.{ChainState, tree_get, TreeName, oracle_key, store_as}
use go_dvote.Util.Hex.{trim_hex}

-- The list without the first element that is equal to the given one; the loop with `copy` and the
-- shorter slice, which does nothing if there is none.
unfoldable pub remove_first : Bytes → List Bytes → List Bytes
remove_first a [] = []
remove_first a (x ∷ xs) = if bytes_eq x a then xs else x ∷ remove_first a xs

module _ (X : Deps) where
  -- The list that `UnmarshalBinaryBare` leaves in a nil slice when its error is ignored.
  unfoldable pub stored_oracles : ChainState X → List Bytes
  stored_oracles s =
      value_or (X.oracles_codec.unmarshal (tree_get X TreeName.app_tree false oracle_key s)) []

  unfoldable pub put_oracles : List Bytes → Exec (ChainState X) (Unit {0})
  put_oracles l = store_as X X.oracles_codec l TreeName.app_tree oracle_key

  -- AddOracle
  unfoldable pub add_oracle : Bytes → Exec (ChainState X) (Unit {0})
  unfolding put_oracles
  add_oracle address = do
    oracles ← gets stored_oracles
    fail_if (contains (trim_hex address) oracles) oracle_already_added
    put_oracles (oracles ++ trim_hex address ∷ [])

  -- RemoveOracle
  unfoldable pub remove_oracle : Bytes → Exec (ChainState X) (Unit {0})
  unfolding put_oracles
  remove_oracle address = do
    oracles ← gets stored_oracles
    fail_if (not (contains (trim_hex address) oracles)) oracle_not_found
    put_oracles (remove_first (trim_hex address) oracles)

  -- Oracles
  unfoldable pub oracles : Bool → ChainState X → Res (List Bytes)
  oracles is_query s =
      X.oracles_codec.unmarshal (tree_get X TreeName.app_tree is_query oracle_key s)
