-- ===== src/Util/Hex/Tests.antt =====
-- Hexadecimal strings evaluated at small inputs.
use go_dvote.Util.Hex.{decode_pair}
use go_dvote.Util.Hex.{push_byte}
use go_dvote.Prelude.{◌≡◌, refl, ok, codes, [], ◌∷◌}
use go_dvote.Util.Hex.{decode_string, from_hex_char}

decode_runs : decode_string (codes "0fA0") ≡ ok (15 ∷ 160 ∷ [])
unfolding decode_string from_hex_char push_byte decode_pair
decode_runs = refl
