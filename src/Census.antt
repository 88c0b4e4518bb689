-- ===== src/Census.antt =====
-- census/: the census manager. Its state, and what it takes from outside.
pub mod Namespaces
pub mod Auth
pub mod Import
pub mod Requests
pub mod Handler
pub mod Start
pub mod Denied
pub mod Authorized
pub mod Names
mod Examples
use go_dvote.Prelude.{
  Bytes, List, [], ◌∷◌, ℕ, Res, Option, Bool, codes, Error, none, true, false, some,
}
use go_dvote.Prelude.Int.{ℤ}
use go_dvote.Trie.{TreeDb, Trie}

-- Namespace
pub record Namespace : Type 0 where
  pub name : Bytes
  pub keys : List Bytes

-- types.CensusDump
pub record CensusDump : Type 0 where
  pub root_hash : Bytes
  pub claims_data : List Bytes

-- data.Storage, for example IPFS.
pub record Remote : Type 0 where
  pub uri_prefix : Bytes
  pub retrieve : Bytes → Res Bytes
  pub publish_file : Bytes → Res Bytes

-- The trees, the remote storage, which may be nil, encoding/json, zstd, `os.IsTimeout`, and the
-- writing of the file of the namespaces. `namespaces_file` is what reading the file gives, if there is
-- one, and `unmarshal_namespaces` what json.Unmarshal leaves in the manager's empty Namespaces.
pub record CensusDeps : Type 1 where
  pub trees_db : TreeDb
  pub remote : Option Remote
  pub unmarshal_dump : Bytes → Res CensusDump
  pub marshal_dump : CensusDump → Res Bytes
  pub zstd_decode : Bytes → Res Bytes
  pub zstd_encode : Bytes → Bytes
  pub is_timeout : Error → Bool
  pub write_namespaces : Bytes → List Namespace → Res (Unit {0})
  pub open_local_storage : Res (Unit {0})
  pub namespaces_file : Option (Res Bytes)
  pub unmarshal_namespaces : Bytes → (Bytes × List Namespace) × Option Error

-- Manager, without the size of its import queue, which only the metrics read: the root key and the
-- namespaces of its census, and the maps as association lists.
pub record Manager (Tree : Type 0) : Type 0 where
  pub root_key : Bytes
  pub namespaces : List Namespace
  pub auth_window : ℤ
  pub trees : List (Bytes × Tree)
  pub failed_queue : List (Bytes × Bytes)

-- The fields of types.MetaRequest that the census manager reads.
pub record MetaRequest : Type 0 where
  pub census_id : Bytes
  pub claim_data : Bytes
  pub claims_data : List Bytes
  pub digested : Bool
  pub method : Bytes
  pub proof_data : Bytes
  pub pub_keys : List Bytes
  pub root_hash : Bytes
  pub timestamp : ℤ
  pub uri : Bytes

-- The fields of types.RequestMessage that CheckAuth reads.
pub record RequestMessage : Type 0 where
  pub meta_request : Bytes
  pub signature : Bytes

-- The fields of types.MetaResponse that the census manager writes; a message is its error.
pub record MetaResponse : Type 0 where
  pub is_ok : Bool
  pub message : Option Error
  pub census_id : Bytes
  pub census_list : List Bytes
  pub claims_data : List Bytes
  pub invalid_claims : List ℕ
  pub root : Bytes
  pub siblings : Bytes
  pub size : Option ℕ
  pub uri : Bytes
  pub valid_proof : Option Bool

abbrev pub empty_response : MetaResponse
empty_response = record {
  is_ok = true;
  message = none;
  census_id = [];
  census_list = [];
  claims_data = [];
  invalid_claims = [];
  root = [];
  siblings = [];
  size = none;
  uri = [];
  valid_proof = none;
}

-- SetError
unfoldable pub set_error : Error → MetaResponse → MetaResponse
set_error e resp = record resp { is_ok = false; message = some e }

abbrev pub Census : CensusDeps → Type 0
Census K = Manager (Trie K.trees_db)
