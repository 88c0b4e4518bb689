-- ===== src/Census/Requests.antt =====
-- census/handler.go: the methods of Handler, case by case. A case that is not allowed, or that only
-- reads, returns its response alone.
use go_dvote.Census.{CensusDeps, Census, MetaRequest, MetaResponse, empty_response, set_error}
use go_dvote.Census.Import.{on_tree, publish_tree, catch, ignore_error}
use go_dvote.Trie.{Trie, add_claim, gen_proof, import_dump, dump, dump_plain, size, root}
use go_dvote.Vochain.Deps.{Deps}
use go_dvote.Vochain.Apputils.{check_proof}
use go_dvote.Db.{has_prefix}
use go_dvote.Prelude.{
  Bool, Bytes, Error, Exec, List, Res, if◌then◌else◌, some, ℕ, none, map, ◌>>◌, ◌>>=◌, [], ok, pure,
  cannot_import_census, ltb, err, storage_not_supported, ◌∷◌, true, panic, lift, ◌++◌, length,
  bind_res, not, false, proof_not_provided, ◌||◌, suc, leb, uri_not_supported, or_error, drop,
  cannot_retrieve_census, bad_census_format, no_claims,
}
use go_dvote.Census.Namespaces.{add_namespace, compress_bytes, del_namespace, decompress_bytes}

-- An action on a tree, answered with a response or with its error.
abbrev pub respond :
    {S : Type 0} → MetaResponse → (Error → Error) → Exec S (Unit {0}) → Exec S MetaResponse
respond resp message act = catch (do act; pure resp) (λ e. pure (set_error (message e) resp))

-- A call that writes nothing, in the same way.
abbrev pub respond_res :
    {A : Type 0} → MetaResponse → Res A → (A → Res MetaResponse) → Res MetaResponse
respond_res resp (ok a) next = next a
respond_res resp (err e) next = ok (set_error e resp)
respond_res resp panic next = panic

module _ (X : Deps) (K : CensusDeps) where
  -- `if !r.Digested { data = snarks.Poseidon.Hash(data) }`
  unfoldable pub digest : Bool → Bytes → Bytes
  digest digested content = if digested then content else X.poseidon content

  -- `base64.StdEncoding.DecodeString` with its error returned.
  unfoldable pub decode_base64 : Bytes → Res Bytes
  decode_base64 s =
      let (content, e) = K.trees_db.base64_decode s in
      elim e [ none ↦ ok content | some e' ↦ err e' ]

  -- addCensus
  unfoldable pub add_census_method : Bytes → MetaRequest → Exec (Census K) MetaResponse
  unfolding publish_tree
  add_census_method prefix r =
      catch
        (do
          add_namespace K (prefix ++ r.census_id) r.pub_keys
          publish_tree K (prefix ++ r.census_id)
          pure (record empty_response { census_id = prefix ++ r.census_id }))
        (λ e. pure (set_error e empty_response))

  -- getCensusList, in the order of the association list; Go's order is arbitrary.
  unfoldable pub census_list_method : Census K → MetaResponse
  census_list_method m = record empty_response { census_list = map (λ e. e.0) m.trees }

  -- The loop of addClaimBulk: the positions of the claims not added.
  unfoldable pub add_claims : Bool → ℕ → List Bytes → Exec (Trie K.trees_db) (List ℕ)
  unfolding decode_base64 digest
  add_claims digested i [] = pure []
  add_claims digested i (c ∷ cs) = do
    added ←
        catch
          (do
            content ← lift (decode_base64 c)
            add_claim K.trees_db (digest digested content) []
            pure true)
          (λ e. pure false)
    invalid_claims ← add_claims digested (suc i) cs
    pure (if added then invalid_claims else i ∷ invalid_claims)

  -- addClaimBulk
  unfoldable pub add_claim_bulk_method : MetaRequest → Exec (Trie K.trees_db) MetaResponse
  unfolding add_claims
  add_claim_bulk_method r = do
    invalid ← add_claims r.digested 0 r.claims_data
    pure (record empty_response { invalid_claims = invalid })

  -- addClaim: it goes on after an error of the decoding, with what was decoded.
  unfoldable pub add_claim_method : MetaRequest → Exec (Trie K.trees_db) MetaResponse
  unfolding digest
  add_claim_method r =
      let (content, e) = K.trees_db.base64_decode r.claim_data in
      let resp = elim e as (λ _. MetaResponse) [
        | none ↦ empty_response
        | some e' ↦ set_error e' empty_response
      ] in
      respond resp (λ e. e) (add_claim K.trees_db (digest r.digested content) [])

  -- importDump
  unfoldable pub import_dump_method : MetaRequest → Exec (Trie K.trees_db) MetaResponse
  import_dump_method r =
      if ltb 0 (length r.claims_data)
      then respond empty_response (λ e. e) (import_dump K.trees_db r.claims_data)
      else pure empty_response

  -- importRemote: the claims of the dump that the URI names.
  unfoldable pub retrieve_dump : MetaRequest → Res (List Bytes)
  retrieve_dump r = elim K.remote [
    | none ↦ err storage_not_supported
    | some storage ↦
        if not (has_prefix storage.uri_prefix r.uri)
          || leb (length r.uri) (length storage.uri_prefix)
        then err uri_not_supported
        else bind_res
            (or_error (storage.retrieve (drop (length storage.uri_prefix) r.uri))
              cannot_retrieve_census)
            λ raw.
              bind_res (or_error (K.unmarshal_dump (decompress_bytes K raw)) bad_census_format)
                λ d. if ltb 0 (length d.claims_data) then ok d.claims_data else err no_claims
  ]

  unfoldable pub import_remote_method : MetaRequest → Exec (Trie K.trees_db) MetaResponse
  unfolding retrieve_dump
  import_remote_method r = elim (retrieve_dump r) [
    | ok claims ↦ respond empty_response (λ e. cannot_import_census) (import_dump K.trees_db claims)
    | err e ↦ pure (set_error e empty_response)
    | panic ↦ lift panic
  ]

  -- checkProof
  unfoldable pub check_proof_method : MetaRequest → Trie K.trees_db → Res MetaResponse
  unfolding decode_base64 digest
  check_proof_method r tr =
      if ltb (length r.proof_data) 1
      then ok (set_error proof_not_provided empty_response)
      else respond_res empty_response (decode_base64 r.claim_data) λ content.
        respond_res empty_response
          (check_proof X (if ltb (length r.root_hash) 1 then root K.trees_db tr else r.root_hash)
            r.proof_data (digest r.digested content) [])
          λ valid. ok (record empty_response { valid_proof = some valid })

  -- genProof
  unfoldable pub gen_proof_method : MetaRequest → Trie K.trees_db → Res MetaResponse
  unfolding decode_base64 digest
  gen_proof_method r tr = respond_res empty_response (decode_base64 r.claim_data) λ content.
      respond_res empty_response (gen_proof K.trees_db (digest r.digested content) [] tr)
        λ p. ok (record empty_response { siblings = p })

  -- getSize: the size is set after an error too, when it is 0.
  unfoldable pub get_size_method : Trie K.trees_db → Res MetaResponse
  get_size_method tr =
      respond_res (record empty_response { size = some 0 })
        (size K.trees_db (root K.trees_db tr) tr) λ n. ok (record empty_response { size = some n })

  -- dump and dumpPlain
  unfoldable pub dump_method : Bool → MetaRequest → Trie K.trees_db → Res MetaResponse
  dump_method plain r tr =
      let root_hash = if ltb (length r.root_hash) 1 then root K.trees_db tr else r.root_hash in
      respond_res empty_response
        (if plain then dump_plain K.trees_db root_hash tr else dump K.trees_db root_hash tr)
        λ claims. ok (record empty_response { claims_data = claims })

  -- publish: the dump is stored first, and its claims and its URI returned.
  unfoldable pub publish_dump : Trie K.trees_db → Res (List Bytes × Bytes)
  publish_dump tr = elim K.remote [
    | none ↦ err storage_not_supported
    | some storage ↦ bind_res (dump K.trees_db (root K.trees_db tr) tr) λ claims.
        bind_res (K.marshal_dump (record { root_hash = root K.trees_db tr; claims_data = claims }))
          λ b.
            bind_res (storage.publish_file (compress_bytes K b))
              λ cid. ok (claims, storage.uri_prefix ++ cid)
  ]

  -- The namespace of the published census. An error of its creation is only logged.
  unfoldable pub add_published :
      MetaRequest → List Bytes → MetaResponse → Exec (Census K) MetaResponse
  unfolding on_tree publish_tree
  add_published r claims resp = do
    created ← catch (do add_namespace K resp.root r.pub_keys; pure true) (λ e. pure false)
    if not created
        then pure resp
        else catch
            (do
              on_tree K resp.root (import_dump K.trees_db claims)
              publish_tree K resp.root
              pure resp)
            (λ e. do ignore_error (del_namespace K resp.root); pure (set_error e resp))

  unfoldable pub publish_method : MetaRequest → Trie K.trees_db → Exec (Census K) MetaResponse
  unfolding publish_dump add_published
  publish_method r tr = elim (publish_dump tr) [
    | ok p ↦ add_published r p.0 (record empty_response { uri = p.1; root = root K.trees_db tr })
    | err e ↦ pure (set_error e empty_response)
    | panic ↦ lift panic
  ]
