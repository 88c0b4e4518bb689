-- ===== src/Nacl.antt =====
-- crypto/nacl/nacl.go: keys of 32 bytes, over curve25519 of golang.org/x/crypto.
use go_dvote.Prelude.Fallible.{◌>>=◌, ◌>>◌, reject_if}
use go_dvote.Prelude.{Bytes, ℕ, Res, ok, not, length, ◌==◌, nacl_key_length}
use go_dvote.Util.Hex.{decode_string}

abbrev pub key_length : ℕ
key_length = 32

-- key.decode
unfoldable pub decode_key : Bytes → Res Bytes
decode_key hexkey = do
  b ← decode_string hexkey
  reject_if (not (length b == key_length)) nacl_key_length
  ok b

-- DecodePrivate: the private key and the public key derived from it by `x25519`.
unfoldable pub decode_private : (Bytes → Res Bytes) → Bytes → Res (Bytes × Bytes)
unfolding decode_key
decode_private x25519 hexkey = do
  priv ← decode_key hexkey
  derived ← x25519 priv
  ok (priv, derived)

-- DecodePublic
unfoldable pub decode_public : Bytes → Res Bytes
decode_public hexkey = decode_key hexkey
