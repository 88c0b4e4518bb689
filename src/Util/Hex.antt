-- ===== src/Util/Hex.antt =====
-- util/helpers.go: the hexadecimal helpers, over encoding/hex of Go's standard library.
pub mod Laws
mod Tests
use go_dvote.Prelude.{
  ℕ, zero, suc, ◌+◌, ◌-◌, ◌*◌, ◌/◌, ◌%◌, Bool, true, false, ◌&&◌, ◌||◌, Option, none, some, List,
  [], ◌∷◌, leb, ltb, ◌==◌, if◌then◌else◌, Bytes, length, Res, ok, err, panic, bind_res,
  hex_invalid_byte, hex_odd_length,
}

-- encoding/hex: `fromHexChar`.
unfoldable pub from_hex_char : ℕ → Option ℕ
from_hex_char c =
    if leb b'0' c && leb c b'9'
    then some (c - b'0')
    else if leb b'a' c && leb c b'f'
    then some (c - b'a' + 10)
    else if leb b'A' c && leb c b'F'
    then some (c - b'A' + 10)
    else none

-- Two digits make a byte.
unfoldable pub decode_pair : ℕ → ℕ → Option ℕ
decode_pair a b = elim (from_hex_char a) [
  | none ↦ none
  | some x ↦ elim (from_hex_char b) [ none ↦ none | some y ↦ some (x * 16 + y) ]
]

unfoldable pub push_byte : Option ℕ → Res Bytes → Res Bytes
push_byte none r = err hex_invalid_byte
push_byte (some v) r = bind_res r (λ bs. ok (v ∷ bs))

-- encoding/hex: `DecodeString`. An invalid byte is reported before an odd length.
unfoldable pub decode_string : Bytes → Res Bytes
decode_string [] = ok []
decode_string (a ∷ []) = elim (from_hex_char a) [
  | none ↦ err hex_invalid_byte
  | some _ ↦ err hex_odd_length
]
decode_string (a ∷ b ∷ s) = push_byte (decode_pair a b) (decode_string s)

-- A digit of `%x`.
unfoldable pub hex_char : ℕ → ℕ
hex_char d = if ltb d 10 then b'0' + d else b'a' + (d - 10)

-- `fmt.Sprintf("%x", b)`, hex.EncodeToString.
unfoldable pub encode_to_string : Bytes → Bytes
encode_to_string [] = []
encode_to_string (b ∷ bs) = hex_char (b / 16) ∷ hex_char (b % 16) ∷ encode_to_string bs

-- TrimHex: one leading 0x or 0X is dropped.
unfoldable pub trim_hex : Bytes → Bytes
trim_hex [] = []
trim_hex (a ∷ []) = a ∷ []
trim_hex (a ∷ b ∷ s) = if a == b'0' && (b == b'x' || b == b'X') then s else a ∷ b ∷ s

-- A character of the class [0-9a-fA-F].
unfoldable pub is_hex_char : ℕ → Bool
is_hex_char c = leb b'0' c && leb c b'9' || leb b'a' c && leb c b'f' || leb b'A' c && leb c b'F'

unfoldable pub all_hex : Bytes → Bool
unfolding is_hex_char
all_hex [] = true
all_hex (c ∷ s) = is_hex_char c && all_hex s

-- IsHex: the expression ^([0-9a-fA-F])+$ wants one character at least.
unfoldable pub is_hex : Bytes → Bool
is_hex [] = false
is_hex (c ∷ s) = all_hex (c ∷ s)

-- IsHexEncodedStringWithLength; hex.DecodedLen(n) is n / 2.
unfoldable pub is_hex_encoded_string_with_length : Bytes → ℕ → Bool
is_hex_encoded_string_with_length str len = let s = trim_hex str in length s / 2 == len && is_hex s
