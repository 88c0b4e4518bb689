-- ===== src/Vochain/Keykeeper/Generate.antt =====
-- vochain/keykeeper/keykeeper.go: the keys of a process, as bytes and as transactions.
use go_dvote.Prelude.{
  Bytes, [], ◌∷◌, ℕ, Res, ok, err, panic, none, some, take, Option, if◌then◌else◌, replicate, set,
  ltb, leb, ◌++◌, length, ◌-◌, decode_too_small, drop, ◌+◌, get_or,
}
use go_dvote.Prelude.Fallible.{◌>>=◌}
use go_dvote.Vochain.Keykeeper.{ProcessKeys, int8_of}
use go_dvote.Types.{AdminTx}
use go_dvote.Nacl.{decode_private}
use go_dvote.Util.Hex.{encode_to_string}
use go_dvote.Prelude.Int.{pos}
use go_dvote.Ethereum.{hash_raw}
use go_dvote.Types.Consts.{tx_add_process_keys, tx_reveal_process_keys}

-- `copy(buf[i:], src)`
unfoldable pub copy_at : ℕ → Bytes → Bytes → Bytes
copy_at i src buf = take i buf ++ (take (length buf - i) src ++ drop (i + length src) buf)

-- Encode
unfoldable pub encode : ProcessKeys → Bytes
unfolding copy_at
encode pk =
    let buf = replicate 129 0 in
    let buf = copy_at 0 pk.pub_key buf in
    let buf = copy_at 32 pk.priv_key buf in
    let buf = copy_at 64 pk.reveal_key buf in
    let buf = copy_at 96 pk.commitment_key buf in set buf 128 pk.index

-- Decode
unfoldable pub decode : Bytes → Res ProcessKeys
decode buf =
    if ltb (length buf) 129
    then err decode_too_small
    else ok (record {
      pub_key = take 32 buf;
      priv_key = take 32 (drop 32 buf);
      reveal_key = take 32 (drop 64 buf);
      commitment_key = take 32 (drop 96 buf);
      index = get_or buf 128 0;
    })

-- `b[:n]`, which panics past the end.
unfoldable pub first_bytes : ℕ → Bytes → Res Bytes
first_bytes n b = if leb n (length b) then ok (take n b) else panic

module _ (X : go_dvote.Vochain.Deps.Deps) where
  -- The private key of a process: a hash of the signer's secret, the process id and the index.
  unfoldable pub private_key_of : Bytes → ℕ → Bytes → Res (Bytes × Bytes)
  private_key_of secret index pid =
      decode_private X.x25519_base
        (encode_to_string (hash_raw X.eth (secret ++ (pid ++ index ∷ []))))

  -- generateKeys
  unfoldable pub generate_keys : Option Bytes → ℕ → Bytes → Res ProcessKeys
  unfolding private_key_of first_bytes
  generate_keys none index pid = panic
  generate_keys (some secret) index pid = do
    key ← private_key_of secret index pid
    ck ← first_bytes 32 (X.poseidon key.0)
    ckhash ← first_bytes 32 (X.poseidon (X.poseidon key.0))
    ok (record {
      pub_key = key.1;
      priv_key = key.0;
      reveal_key = ck;
      commitment_key = ckhash;
      index = index;
    })

-- The transaction of publishKeys.
unfoldable pub publish_tx : Bytes → ProcessKeys → Bytes → AdminTx
publish_tx nonce pk pid = record {
  address = [];
  commitment_key = encode_to_string pk.commitment_key;
  encryption_private_key = [];
  encryption_public_key = encode_to_string pk.pub_key;
  key_index = int8_of pk.index;
  nonce = nonce;
  power = pos 0;
  process_id = encode_to_string pid;
  pub_key = [];
  reveal_key = [];
  signature = [];
  type = tx_add_process_keys;
  signed_bytes = [];
}

-- The transaction of revealKeys.
unfoldable pub reveal_tx : Bytes → ProcessKeys → Bytes → AdminTx
reveal_tx nonce pk pid = record {
  address = [];
  commitment_key = [];
  encryption_private_key = encode_to_string pk.priv_key;
  encryption_public_key = [];
  key_index = int8_of pk.index;
  nonce = nonce;
  power = pos 0;
  process_id = encode_to_string pid;
  pub_key = [];
  reveal_key = encode_to_string pk.reveal_key;
  signature = [];
  type = tx_reveal_process_keys;
  signed_bytes = [];
}
