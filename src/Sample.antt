-- ===== src/Sample.antt =====
-- A concrete instance of what the chain's code takes from outside, for the examples.
mod Codec
mod Store
pub mod Accounts
use go_dvote.Prelude.{
  Bytes, take, err, library, ◌++◌, replicate, ok, true, ◌∷◌, drop, value_or, [], refl, codes,
}
unfoldable pub use Codec.{codec_of, process_ser, vote_ser, header_ser, strings_ser, validators_ser}
pub use Store.{MemDb}
unfoldable pub use Store.{mem_empty, mem_db, mem_add}
use go_dvote.Ethereum.{EthCrypto}
use go_dvote.Vochain.Deps.{Deps, Json}
use go_dvote.Util.Hex.{decode_string, trim_hex, encode_to_string}
use go_dvote.Types.{VoteTx}

-- A signature scheme in which a key is its bytes and every signature of 65 bytes is by the key
-- that is its first 32 bytes.
abbrev pub sample_eth : EthCrypto
sample_eth = record {
  PublicKey = Bytes;
  keccak256 = λ b. take 32 (b ++ replicate 32 0);
  sig_to_pub = λ h sig. ok (take 32 sig);
  compress_pubkey = λ k. 2 ∷ k;
  decompress_pubkey = λ b. ok (drop 1 b);
  unmarshal_pubkey = λ b. ok (drop 33 b);
  from_ecdsa_pub = λ k. 4 ∷ (replicate 32 0 ++ k);
  pubkey_to_address = λ k. take 20 k;
  verify_signature = λ k h sig. true;
  hex_to_address = λ s. value_or (decode_string (trim_hex s)) [];
}

-- A signature by the key of 32 fives, as it stands in a transaction.
abbrev pub sample_signature : Bytes
sample_signature = encode_to_string (replicate 64 5 ++ 0 ∷ [])

-- A vote transaction whose signature is 65 bytes.
abbrev pub sample_vote_tx : VoteTx
sample_vote_tx = record {
  encryption_key_indexes = [];
  nonce = [];
  nullifier = [];
  process_id = codes "0101010101010101010101010101010101010101010101010101010101010101";
  proof = codes "0a0b";
  signature = sample_signature;
  type = codes "vote";
  vote_package = 9 ∷ [];
  signed_bytes = codes "vote";
}

-- A message is the name of its type, and there is one vote transaction.
abbrev pub sample_json : Json
sample_json = record {
  unmarshal_tx = λ b. ok b;
  unmarshal_vote_tx = λ b. ok sample_vote_tx;
  unmarshal_admin_tx = λ b. err library;
  unmarshal_new_process_tx = λ b. err library;
  unmarshal_cancel_process_tx = λ b. err library;
  marshal_vote_tx = λ t. ok (codes "vote");
  marshal_admin_tx = λ t. err library;
  marshal_new_process_tx = λ t. err library;
  marshal_cancel_process_tx = λ t. err library;
}

abbrev pub sample : Deps
sample = record {
  json = sample_json;
  db = mem_db;
  process_codec = codec_of process_ser;
  vote_codec = codec_of vote_ser;
  header_codec = codec_of header_ser;
  oracles_codec = codec_of strings_ser;
  validators_codec = codec_of validators_ser;
  eth = sample_eth;
  pub_key_address = λ k. k;
  hex_bytes_string = λ a. a;
  poseidon = λ b. take 32 (b ++ replicate 32 0);
  x25519_base = λ k. ok k;
  Proof = Bytes;
  unmarshal_proof = λ b. ok b;
  verify_membership = λ p r k. true;
}
