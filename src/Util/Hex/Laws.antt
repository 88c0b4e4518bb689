-- ===== src/Util/Hex/Laws.antt =====
-- encoding/hex round trips, and what the format check of util/helpers.go promises to `DecodeString`.
use go_dvote.Prelude.{
  ℕ, ◌*◌, ◌/◌, ◌%◌, ◌<◌, ◌≡◌, refl, none, some, [], ◌∷◌, arith, Bytes, All, length, Res, ok, err,
  panic, hex_odd_length, inl, inr, Option-cases, Option, suc, subst, Res-cases,
}
use go_dvote.Util.Hex.{
  from_hex_char, decode_pair, push_byte, decode_string, hex_char, encode_to_string,
}

decode_pair-hex_char :
    (b : ℕ) → b < 256 → decode_pair (hex_char (b / 16)) (hex_char (b % 16)) ≡ some b
unfolding decode_pair
decode_pair-hex_char b h =
    ground (arith, from_hex_char-hex_char (b / 16), from_hex_char-hex_char (b % 16))
  where
    from_hex_char-hex_char : (d : ℕ) → d < 16 → from_hex_char (hex_char d) ≡ some d
    from_hex_char-hex_char d h = unfold from_hex_char hex_char in ground arith

-- Decoding the encoding of a byte string gives the byte string back.
pub decode_string-encode_to_string :
    (bs : Bytes) → All (λ b. b < 256) bs → decode_string (encode_to_string bs) ≡ ok bs
unfolding decode_string encode_to_string push_byte
decode_string-encode_to_string [] h = refl
decode_string-encode_to_string (b ∷ bs) h =
    ground (arith, decode_pair-hex_char b, decode_string-encode_to_string bs h.1)

-- Encoding doubles the length.
pub length-encode_to_string : (bs : Bytes) → length (encode_to_string bs) ≡ 2 * length bs
unfolding encode_to_string
length-encode_to_string [] = refl
length-encode_to_string (b ∷ bs) = omega (arith, length-encode_to_string bs)

length-push_byte :
    (p : Option ℕ) (r : Res Bytes) (b : Bytes) (n : ℕ)
    → ((b' : Bytes) → r ≡ ok b' → 2 * length b' ≡ n)
    → push_byte p r ≡ ok b
    → 2 * length b ≡ suc (suc n)
unfolding push_byte
length-push_byte none r b n h e = cc
length-push_byte (some v) (ok bs) b n h e = ground (arith, h bs refl)
length-push_byte (some v) (err x) b n h e = cc
length-push_byte (some v) panic b n h e = cc

-- `DecodeString` gives half as many bytes as the string has characters.
pub length-decode_string :
    (s : Bytes) {b : Bytes} → decode_string s ≡ ok b → 2 * length b ≡ length s
unfolding decode_string
length-decode_string [] h = ground arith
length-decode_string (a ∷ []) h = ground arith
length-decode_string (a ∷ c ∷ s) {b} h =
    length-push_byte (decode_pair a c) (decode_string s) b (length s)
      (λ b' e. length-decode_string s e) h

-- What `DecodeString` makes of a string of hexadecimal characters.
abbrev pub HexOutcome : ℕ → Res Bytes → Type 0
HexOutcome n (ok b) = 2 * length b ≡ n
HexOutcome n (err e) = (e ≡ hex_odd_length) × (n % 2 ≡ 1)
HexOutcome n panic = ⊥

from_hex_char-lt : (c x : ℕ) → from_hex_char c ≡ some x → x < 16
unfolding from_hex_char
from_hex_char-lt c x h = ground arith

decode_pair-lt : (a b v : ℕ) → decode_pair a b ≡ some v → v < 256
unfolding decode_pair
decode_pair-lt a b v h = elim (Option-cases (from_hex_char a)) [
  | inl e ↦ absurd (ground (arith, e))
  | inr (x, e) ↦ elim (Option-cases (from_hex_char b)) [
    | inl e' ↦ absurd (ground (arith, e, e'))
    | inr (y, e') ↦
        let hx = from_hex_char-lt a x e in
        let hy = from_hex_char-lt b y e' in ground (arith, e, e', hx, hy, h)
  ]
]

-- What `DecodeString` gives are bytes.
pub decode_string-bytes : (s b : Bytes) → decode_string s ≡ ok b → All (λ x. x < 256) b
unfolding decode_string push_byte
decode_string-bytes [] b h =
    let empty : [] ≡ b = ground arith in subst (λ (u : Bytes). All (λ x. x < 256) u) empty tt
decode_string-bytes (a ∷ []) b h = absurd (ground arith)
decode_string-bytes (a ∷ c ∷ s) b h = elim (Option-cases (decode_pair a c)) [
  | inl e ↦ absurd (ground (arith, e))
  | inr (v, e) ↦ elim (Res-cases (decode_string s)) [
    | inl (r, e') ↦
        let whole : v ∷ r ≡ b = ground (arith, e, e', h) in
        subst (λ (u : Bytes). All (λ x. x < 256) u) whole
          (decode_pair-lt a c v e, decode_string-bytes s r e')
    | inr (inl (x, e')) ↦ absurd (ground (arith, e, e', h))
    | inr (inr e') ↦ absurd (ground (arith, e, e', h))
  ]
]
