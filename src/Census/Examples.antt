-- ===== src/Census/Examples.antt =====
-- census/: a small census manager, on which the theorems about it run.
use go_dvote.Census.{CensusDeps, Census, MetaRequest, RequestMessage}
use go_dvote.Census.Handler.{handler, is_method}
use go_dvote.Census.Denied.{handler-census_methods}
use go_dvote.Census.Authorized.{check_auth-is_authorized, is_authorized}
use go_dvote.Census.Auth.{check_auth}
use go_dvote.Census.Names.Steps.{Reaches, stays, goes, served, exists-del_namespace}
use go_dvote.Census.Namespaces.{exists, del_namespace}
use go_dvote.Db.{has_prefix}
use go_dvote.Util.Hex.{trim_hex}
use go_dvote.Trie.{TreeDb}
use go_dvote.Sample.{sample, sample_eth, sample_signature}
use go_dvote.Prelude.Int.{pos}
use go_dvote.Prelude.{
  List, [], codes, is_ok, none, true, err, ◌≡◌, Bytes, false, ok, library, refl, insert, length,
  ◌∷◌, some, lookup, arith, bytes_eq, ◌&&◌, ◌||◌,
}

-- A tree is the list of its keys, and base64 is left out.
abbrev sample_trees : TreeDb
sample_trees = record {
  Store = List (Bytes × Bytes);
  open_store = λ name. ok [];
  add = λ s k v. ok (insert k v s);
  commit = λ s. ok s;
  hash = λ s. length s ∷ [];
  count = λ s. length s;
  entries = λ s. s;
  tree_with_root = λ s r. some s;
  proof = λ s k. ok (lookup k s);
  base64_encode = λ b. b;
  base64_decode = λ b. (b, none);
}

-- Without remote storage, and the file of the namespaces is always written.
abbrev sample_census : CensusDeps
sample_census = record {
  trees_db = sample_trees;
  remote = none;
  unmarshal_dump = λ b. err library;
  marshal_dump = λ d. err library;
  zstd_decode = λ b. ok b;
  zstd_encode = λ b. b;
  is_timeout = λ e. false;
  write_namespaces = λ k ns. ok tt;
  open_local_storage = ok tt;
  namespaces_file = none;
  unmarshal_namespaces = λ b. (([], []), some library);
}

abbrev new_manager : Census sample_census
new_manager = record {
  root_key = [];
  namespaces = [];
  auth_window = pos 10;
  trees = [];
  failed_queue = [];
}

abbrev add_alpha : MetaRequest
add_alpha = record {
  census_id = codes "0xalpha";
  claim_data = codes "claim";
  claims_data = [];
  digested = true;
  method = codes "addCensus";
  proof_data = [];
  pub_keys = [];
  root_hash = [];
  timestamp = pos 1600000000;
  uri = [];
}

-- The census `alpha`, public and empty.
abbrev one_census : Census sample_census
one_census = (handler sample sample_census add_alpha true [] new_manager).1

abbrev claim_to_alpha : MetaRequest
claim_to_alpha = record add_alpha { method = codes "addClaim" }

other_prefix :
    (true
      && (is_method claim_to_alpha (codes "addCensus")
          || has_prefix (codes "b") (trim_hex claim_to_alpha.census_id)))
    ≡ false
unfolding is_method bytes_eq has_prefix trim_hex
other_prefix = refl

-- A claim to `alpha` by a caller whose prefix is `b`.
handler-census_methods_example :
    (handler sample sample_census claim_to_alpha true (codes "b") one_census).1 ≡ one_census
handler-census_methods_example =
    handler-census_methods sample sample_census claim_to_alpha true (codes "b") one_census
      other_prefix

abbrev signed_request : RequestMessage
signed_request = record { meta_request = codes "request"; signature = sample_signature }

check_auth-is_authorized_example :
    is_ok (check_auth sample_eth (pos 1600000005) one_census signed_request claim_to_alpha)
    ≡ is_authorized sample_eth (pos 1600000005) one_census signed_request claim_to_alpha
check_auth-is_authorized_example =
    check_auth-is_authorized sample_eth (pos 1600000005) one_census signed_request claim_to_alpha

alpha_added : Reaches sample sample_census new_manager one_census
alpha_added =
    goes new_manager one_census one_census (served add_alpha true [] new_manager) (stays one_census)

exists-del_namespace_example :
    exists sample_census (codes "alpha") (del_namespace sample_census (codes "alpha") one_census).1
    ≡ false
exists-del_namespace_example =
    exists-del_namespace sample sample_census new_manager one_census (codes "alpha") refl
      alpha_added (ground arith)
