-- ===== src/Census/Auth.antt =====
-- census/auth.go: who may call the private methods.
use go_dvote.Prelude.Fallible.{◌>>◌, reject_if}
use go_dvote.Census.{Namespace, Manager, MetaRequest, RequestMessage}
use go_dvote.Census.Namespaces.{has_namespace}
use go_dvote.Ethereum.{EthCrypto, verify, signature_len, pub_key_length}
use go_dvote.Prelude.Int.{ℤ, pos, negsuc, ltb_ℤ, ◌+ℤ◌, ◌-ℤ◌}
use go_dvote.Prelude.{
  Bool, Bytes, List, Res, ◌%◌, ok, ◌||◌, [], ◌∷◌, err, ltb, ◌^◌, if◌then◌else◌, length,
  census_unauthorized, ◌-◌, panic, signature_not_provided, bytes_eq, codes, ◌&&◌,
  timestamp_not_valid,
}

-- A value of the type int32.
unfoldable pub wrap_int32 : ℤ → ℤ
wrap_int32 (pos n) = let r = n % 2 ^ 32 in if ltb r (2 ^ 31) then pos r else negsuc (2 ^ 32 - 1 - r)
wrap_int32 (negsuc n) =
    let r = n % 2 ^ 32 in if ltb r (2 ^ 31) then negsuc r else pos (2 ^ 32 - 1 - r)

-- The variable of a loop over the namespaces, when it has ended.
unfoldable pub loop_variable : Namespace → List Namespace → Namespace
loop_variable n [] = n
loop_variable n (n' ∷ ns) = loop_variable n' ns

-- The loop of CheckAuth: `ns = &n` points to the loop's variable, and not to the namespace found.
unfoldable pub select_namespace : Bytes → List Namespace → Namespace
unfolding has_namespace loop_variable
select_namespace name ns =
    let new : Namespace = record { name = []; keys = [] } in
    if has_namespace name ns then loop_variable new ns else new

-- Outside `currentTime ± m.AuthWindow`, in int32.
unfoldable pub out_of_window : ℤ → ℤ → ℤ → Bool
unfolding wrap_int32
out_of_window current_time auth_window timestamp =
    ltb_ℤ (wrap_int32 (current_time +ℤ auth_window)) timestamp
    || ltb_ℤ timestamp (wrap_int32 (current_time -ℤ auth_window))

module _ (E : EthCrypto) where
  -- The loop over the keys, and what follows it.
  unfoldable pub verify_keys : Bytes → Bytes → List Bytes → Res (Unit {0})
  verify_keys message signature [] = err census_unauthorized
  verify_keys message signature (k ∷ ks) =
      let rest = verify_keys message signature ks in
      elim (verify E message signature k) [
        | ok valid ↦ if valid then ok tt else rest
        | err e ↦ rest
        | panic ↦ panic
      ]

  unfoldable pub check_keys : Bytes → Bytes → List Bytes → Res (Unit {0})
  unfolding verify_keys
  check_keys message signature [] = ok tt
  check_keys message signature (k ∷ []) =
      if ltb (length k) pub_key_length then ok tt else verify_keys message signature (k ∷ [])
  check_keys message signature (k ∷ k' ∷ ks) = verify_keys message signature (k ∷ k' ∷ ks)

  -- CheckAuth, at the time that it reads. Its test `ns == nil` is never true.
  unfoldable pub check_auth :
      {Tree : Type 0} → ℤ → Manager Tree → RequestMessage → MetaRequest → Res (Unit {0})
  unfolding select_namespace out_of_window check_keys
  check_auth current_time m req_outer req_inner = do
    reject_if (ltb (length req_outer.signature) signature_len || ltb (length req_inner.census_id) 1)
        signature_not_provided
    let ns = select_namespace req_inner.census_id m.namespaces
    let add_census = bytes_eq req_inner.method (codes "addCensus")
    if add_census && ltb (length m.root_key) pub_key_length then ok tt else do
      reject_if (out_of_window current_time m.auth_window req_inner.timestamp) timestamp_not_valid
      check_keys req_outer.meta_request req_outer.signature
          (if add_census then m.root_key ∷ [] else ns.keys)
