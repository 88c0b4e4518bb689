-- ===== src/Census/Denied.antt =====
-- census/handler.go: requests that may not write.
use go_dvote.Census.{CensusDeps, Census, MetaRequest}
use go_dvote.Census.Handler.{
  trim_request, handler, census_methods, tree_methods, rooted_methods, private_method, is_method,
}
use go_dvote.Trie.{Trie, snapshot}
use go_dvote.Vochain.Deps.{Deps}
use go_dvote.Db.{has_prefix}
use go_dvote.Prelude.{
  Bool, false, Bytes, ◌≡◌, Res-cases, arith, ◌&&◌, codes, Option-cases, ◌||◌, lookup, inl, inr,
  Bool-cases, bytes_eq, refl,
}
use go_dvote.Util.Hex.{trim_hex}
use mathlib.Core.Bool.{true}

module _ (X : Deps) (K : CensusDeps) where
  rooted_methods-denied :
      (r : MetaRequest) (tr : Trie K.trees_db) (m : Census K)
      → (rooted_methods X K r false tr m).1 ≡ m
  unfolding rooted_methods
  rooted_methods-denied r tr m = ground arith

  tree_methods-denied :
      (r : MetaRequest) (allowed : Bool) (tr : Trie K.trees_db) (m : Census K)
      → allowed ≡ false
      → (tree_methods X K r allowed tr m).1 ≡ m
  unfolding tree_methods private_method
  tree_methods-denied r true tr m h = cc
  tree_methods-denied r false tr m h = elim (Res-cases (snapshot K.trees_db r.root_hash tr)) [
    | inl (tr', e) ↦
        rw e (ground (arith, rooted_methods-denied r tr m, rooted_methods-denied r tr' m))
    | inr (inl (er, e)) ↦ rw e (ground (arith, rooted_methods-denied r tr m))
    | inr (inr e) ↦ rw e (ground (arith, rooted_methods-denied r tr m))
  ]

  census_methods-denied :
      (r : MetaRequest) (is_auth : Bool) (census_prefix : Bytes) (m : Census K)
      → (is_auth && has_prefix census_prefix r.census_id) ≡ false
      → (census_methods X K r is_auth census_prefix m).1 ≡ m
  unfolding census_methods
  census_methods-denied r is_auth census_prefix m h =
      elim (Option-cases (lookup r.census_id m.trees)) [
        | inl e ↦ rw e (ground arith)
        | inr (tr, e) ↦ rw e (
            ground (
              arith,
              tree_methods-denied r (is_auth && has_prefix census_prefix r.census_id) tr m h,
            ))
      ]

  -- A request that is not authenticated, or that is about a census whose identifier does not have the
  -- caller's prefix and does not add one, leaves the census manager as it was.
  pub handler-census_methods :
      (req : MetaRequest) (is_auth : Bool) (census_prefix : Bytes) (m : Census K)
      → (is_auth
          && (is_method req (codes "addCensus")
              || has_prefix census_prefix (trim_hex req.census_id)))
        ≡ false
      → (handler X K req is_auth census_prefix m).1 ≡ m
  unfolding handler is_method
  handler-census_methods req false census_prefix m h =
      let rest = census_methods-denied (trim_request req) false census_prefix m refl in
      ground (arith, rest)
  handler-census_methods req true census_prefix m h =
      elim (Bool-cases (bytes_eq req.method (codes "addCensus"))) [
        | inl c ↦ ground (arith, c, h)
        | inr c ↦
            let p : has_prefix census_prefix (trim_hex req.census_id) ≡ false =
              ground (arith, c, h) in
            let rest = census_methods-denied (trim_request req) true census_prefix m p in
            ground (arith, rest, c)
      ]
