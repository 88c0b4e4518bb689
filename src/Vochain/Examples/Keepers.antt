-- ===== src/Vochain/Examples/Keepers.antt =====
-- The key keeper: the encoding of its keys, and keys that are made, published and revealed.
use go_dvote.Prelude.{Bytes, [], ok, refl, replicate, length, value_or, ◌≡◌}
use go_dvote.Sample.{sample}
use go_dvote.Vochain.Deps.{Deps}
use go_dvote.Vochain.Keykeeper.{ProcessKeys}
use go_dvote.Vochain.Keykeeper.Generate.{encode, decode, publish_tx}
use go_dvote.Vochain.Keykeeper.Encoding.{decode-encode}
use go_dvote.Vochain.State.Processes.{with_added_keys}
use go_dvote.Vochain.Examples.Keys.{keys_pid, keys_process}
use go_dvote.Types.{Process}

-- The hash is a constant.
abbrev constant_hash : Deps
constant_hash = record sample { poseidon = λ b. replicate 32 7 }

abbrev a_secret : Bytes
a_secret = replicate 32 9

abbrev made_keys : ProcessKeys
made_keys = record {
  pub_key = replicate 32 9;
  priv_key = replicate 32 9;
  reveal_key = replicate 32 7;
  commitment_key = replicate 32 7;
  index = 3;
}

decode-encode_example :
    (length (encode made_keys) ≡ 129) × (decode (encode made_keys) ≡ ok made_keys)
decode-encode_example = decode-encode made_keys (refl, refl, refl, refl)

abbrev published_process : Process
published_process =
    value_or (with_added_keys (publish_tx [] made_keys keys_pid) keys_process) keys_process
