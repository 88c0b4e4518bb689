-- ===== src/Census/Authorized.antt =====
-- census/auth.go: what CheckAuth asks for.
use go_dvote.Census.{Manager, MetaRequest, RequestMessage}
use go_dvote.Census.Auth.{check_auth, check_keys, verify_keys, select_namespace, out_of_window}
use go_dvote.Ethereum.{EthCrypto, sign_keys_verify, verify, signature_len, pub_key_length}
use go_dvote.Prelude.Int.{ℤ}
use go_dvote.Prelude.{
  Bytes, List, bytes_eq, Bool, codes, is_ok, if◌then◌else◌, ◌≡◌, ◌∷◌, true, ok, ltb, [], ◌||◌, err,
  inl, false, length, arith, leb, inr, ◌&&◌, panic, refl, not, census_unauthorized, Res, ◌⊎◌,
}

-- The keys with which CheckAuth allows all.
abbrev pub allow_all : List Bytes → Bool
allow_all [] = true
allow_all (k ∷ []) = ltb (length k) pub_key_length
allow_all (k ∷ k' ∷ ks) = false

abbrev pub is_valid : Res Bool → Bool
is_valid (ok valid) = valid
is_valid (err e) = false
is_valid panic = false

-- A round of the loop over the keys, when what is after it has the same outcome.
is_valid_round :
    (r : Res Bool) (rest : Res (Unit {0}))
    → is_ok rest ≡ is_valid r ⊎ (rest ≡ err census_unauthorized)
    → is_ok (elim r as (λ _. Res (Unit {0})) [
      | ok valid ↦ if valid then ok tt else rest
      | err e ↦ rest
      | panic ↦ panic
    ])
      ≡ is_valid r
is_valid_round (ok true) rest h = refl
is_valid_round (ok false) rest (inl h) = h
is_valid_round (ok false) rest (inr h) = rw h refl
is_valid_round (err e) rest (inl h) = h
is_valid_round (err e) rest (inr h) = rw h refl
is_valid_round panic rest h = refl

module _ (E : EthCrypto) where
  -- A signature by any key at all.
  abbrev pub is_signed : Bytes → Bytes → Bool
  is_signed message signature = is_valid (sign_keys_verify E message signature)

  verify_keys-is_signed :
      (message signature k : Bytes) (ks : List Bytes)
      → is_ok (verify_keys E message signature (k ∷ ks)) ≡ is_signed message signature
  unfolding verify_keys verify
  verify_keys-is_signed message signature k [] =
      is_valid_round (sign_keys_verify E message signature) (err census_unauthorized) (inr refl)
  verify_keys-is_signed message signature k (k' ∷ ks) =
      is_valid_round (sign_keys_verify E message signature)
        (verify_keys E message signature (k' ∷ ks))
        (inl (verify_keys-is_signed message signature k' ks))

  check_keys-is_signed :
      (message signature : Bytes) (keys : List Bytes)
      → is_ok (check_keys E message signature keys)
        ≡ (allow_all keys || is_signed message signature)
  unfolding check_keys
  check_keys-is_signed message signature [] = refl
  check_keys-is_signed message signature (k ∷ []) =
      ground (arith, verify_keys-is_signed message signature k [])
  check_keys-is_signed message signature (k ∷ k' ∷ ks) =
      verify_keys-is_signed message signature k (k' ∷ ks)

  -- What CheckAuth asks for: a long enough signature and the name of a census, and then nothing more
  -- of a request that adds a census where no root key is set, else a time in the window and, unless
  -- the keys allow all, a signature that verifies.
  abbrev pub is_authorized :
      {Tree : Type 0} → ℤ → Manager Tree → RequestMessage → MetaRequest → Bool
  is_authorized current_time m req_outer req_inner =
      let add_census = bytes_eq req_inner.method (codes "addCensus") in
      let keys =
        if add_census
        then m.root_key ∷ []
        else (select_namespace req_inner.census_id m.namespaces).keys in
      leb signature_len (length req_outer.signature)
      && (leb 1 (length req_inner.census_id)
          && (add_census && ltb (length m.root_key) pub_key_length
              || not (out_of_window current_time m.auth_window req_inner.timestamp)
                && (allow_all keys || is_signed req_outer.meta_request req_outer.signature)))

  -- CheckAuth allows a request when its signature is long enough and its census named, and either it
  -- adds a census where no root key is set, or its time is in the window and either the keys allow all
  -- or Verify accepts the signature: whose keys they are makes no difference.
  pub check_auth-is_authorized :
      {Tree : Type 0} (current_time : ℤ) (m : Manager Tree) (req_outer : RequestMessage)
      (req_inner : MetaRequest)
      → is_ok (check_auth E current_time m req_outer req_inner)
        ≡ is_authorized current_time m req_outer req_inner
  unfolding check_auth
  check_auth-is_authorized current_time m req_outer req_inner =
      let keys =
        if bytes_eq req_inner.method (codes "addCensus")
        then m.root_key ∷ []
        else (select_namespace req_inner.census_id m.namespaces).keys in
      ground (arith, check_keys-is_signed req_outer.meta_request req_outer.signature keys)
