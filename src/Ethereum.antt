-- ===== src/Ethereum.antt =====
-- crypto/ethereum/ethereum.go: signatures and addresses, over go-ethereum's crypto package.
use go_dvote.Prelude.Fallible.{◌>>=◌, ◌>>◌, reject_if}
use go_dvote.Prelude.{
  ℕ, Bool, Bytes, Res, at_index, ok, ◌∷◌, if◌then◌else◌, List, ◌++◌, ltb, contains, codes, leb, [],
  ◌+◌, length, panic, ◌-◌, ◌||◌, signature_length, take, ◌%◌, bad_recover_id, set,
}
use go_dvote.Util.Hex.{decode_string, trim_hex, encode_to_string}
use go_dvote.Prelude.Int.{pos}
use go_dvote.Util.Decimal.{decimal}

abbrev pub signature_len : ℕ
signature_len = 130

abbrev pub pub_key_length : ℕ
pub_key_length = 66

abbrev pub pub_key_length_uncompressed : ℕ
pub_key_length_uncompressed = 130

-- go-ethereum's crypto and common packages, as far as the program calls them.
pub record EthCrypto : Type 1 where
  pub PublicKey : Type 0
  pub keccak256 : Bytes → Bytes
  pub sig_to_pub : Bytes → Bytes → Res PublicKey
  pub compress_pubkey : PublicKey → Bytes
  pub decompress_pubkey : Bytes → Res PublicKey
  pub unmarshal_pubkey : Bytes → Res PublicKey
  pub from_ecdsa_pub : PublicKey → Bytes
  pub pubkey_to_address : PublicKey → Bytes
  pub verify_signature : Bytes → Bytes → Bytes → Bool
  pub hex_to_address : Bytes → Bytes

-- SigningPrefix: its first character is the byte 0x19.
unfoldable pub signing_prefix : Bytes
signing_prefix = 0x19 ∷ (codes "Ethereum Signed Message:" ++ 0x0a ∷ [])

-- `if sig[64] > 1 { sig[64] -= 27 }`, on a byte, and an error where that leaves more than 1.
unfoldable pub normalize_recover_id : Bytes → Res Bytes
normalize_recover_id sig = do
  v ← at_index sig (pos 64)
  let v' = if ltb 1 v then (v + 256 - 27) % 256 else v
  reject_if (ltb 1 v') bad_recover_id
  ok (set sig 64 v')

module _ (E : EthCrypto) where
  -- HashRaw, and Hash with the prefix of signed messages
  unfoldable pub hash_raw : Bytes → Bytes
  hash_raw bytes = E.keccak256 bytes

  unfoldable pub hash : Bytes → Bytes
  unfolding hash_raw
  hash bytes = hash_raw (signing_prefix ++ (decimal (length bytes) ++ bytes))

  -- DecompressPubKey
  unfoldable pub decompress_pub_key : Bytes → Res Bytes
  decompress_pub_key pub_hex_comp =
      let s = trim_hex pub_hex_comp in
      if ltb pub_key_length (length s) then ok s else do
        b ← decode_string s
        k ← E.decompress_pubkey b
        ok (encode_to_string (E.from_ecdsa_pub k))

  -- CompressPubKey
  unfoldable pub compress_pub_key : Bytes → Res Bytes
  compress_pub_key pub_hex_dec =
      let s = trim_hex pub_hex_dec in
      if ltb (length s) pub_key_length_uncompressed then ok s else do
        b ← decode_string s
        k ← E.unmarshal_pubkey b
        ok (encode_to_string (E.compress_pubkey k))

  -- AddrFromPublicKey
  unfoldable pub addr_from_public_key : Bytes → Res Bytes
  addr_from_public_key pub_hex = do
    desc ← if leb (length pub_hex) pub_key_length then decompress_pub_key pub_hex else ok pub_hex
    b ← decode_string desc
    k ← E.unmarshal_pubkey b
    ok (E.pubkey_to_address k)

  -- PubKeyFromSignature
  unfoldable pub pub_key_from_signature : Bytes → Bytes → Res Bytes
  pub_key_from_signature msg sig_hex = do
    let s = trim_hex sig_hex
    reject_if (ltb (length s) signature_len || ltb (signature_len + 12) (length s)) signature_length
    sig ← decode_string s
    sig' ← normalize_recover_id sig
    k ← E.sig_to_pub (hash msg) sig'
    decompress_pub_key (encode_to_string (E.compress_pubkey k))

  -- hexToPubKey: the length tested is that of the string before its prefix is dropped.
  unfoldable pub hex_to_pub_key : Bytes → Res E.PublicKey
  hex_to_pub_key pub_hex = do
    b ← decode_string (trim_hex pub_hex)
    if leb (length pub_hex) pub_key_length then E.decompress_pubkey b else E.unmarshal_pubkey b

  -- AddrFromSignature
  unfoldable pub addr_from_signature : Bytes → Bytes → Res Bytes
  addr_from_signature msg sig_hex = do
    pub_hex ← pub_key_from_signature msg sig_hex
    k ← hex_to_pub_key pub_hex
    ok (E.pubkey_to_address k)

  -- SignKeys.VerifySender, with the authorized addresses as a list
  unfoldable pub verify_sender : List Bytes → Bytes → Bytes → Res (Bool × Bytes)
  verify_sender authorized msg sig_hex = do
    addr ← addr_from_signature msg sig_hex
    ok (contains addr authorized, addr)

  -- SignKeys.Verify; `signature[:64]` panics on a shorter slice.
  unfoldable pub sign_keys_verify : Bytes → Bytes → Res Bool
  sign_keys_verify msg sign_hex = do
    pub_hex ← pub_key_from_signature msg sign_hex
    sig ← decode_string sign_hex
    k ← decode_string pub_hex
    if ltb (length sig) 64 then panic else ok (E.verify_signature k (hash msg) (take 64 sig))

  -- Verify, the function: the public key that it is given is not used.
  unfoldable pub verify : Bytes → Bytes → Bytes → Res Bool
  unfolding sign_keys_verify
  verify msg sign_hex pub_hex = sign_keys_verify msg sign_hex
