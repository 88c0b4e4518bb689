-- ===== src/Sample/Accounts.antt =====
-- A key-value database in memory, and what the scrutinizer and the key keeper take from outside, for
-- the examples.
use go_dvote.Prelude.{
  Bytes, [], List, ok, err, some, none, lookup, insert, erase, refl, arith, ◌≡◌, Option, map, Res,
  if◌then◌else◌, key_not_found, bytes_eq, lookup-insert, lookup-erase, Bool-cases, inl, inr,
}
use go_dvote.Db.{Kv}
use go_dvote.Sample.Codec.{codec_of, strings_ser}
use go_dvote.Vochain.Scrutinizer.{Deps}
use go_dvote.Prelude.Int.{pos}

unfoldable pub found_in : Option Bytes → Res Bytes
found_in (some v) = ok v
found_in none = err key_not_found

unfoldable pub mem_get : List (Bytes × Bytes) → Bytes → Res Bytes
unfolding found_in
mem_get d k = found_in (lookup k d)

pub mem_get-insert :
    (d : List (Bytes × Bytes)) (k j v : Bytes) (d' : List (Bytes × Bytes))
    → ◌≡◌ {A = Res (List (Bytes × Bytes))} (ok (insert k v d)) (ok d')
    → mem_get d' j ≡ (if bytes_eq k j then ok v else mem_get d j)
unfolding mem_get found_in
mem_get-insert d k j v d' e =
    let same : insert k v d ≡ d' = ground (arith, e) in
    let law = lookup-insert k j v d in
    rw (← same)
      (rw law (elim (Bool-cases (bytes_eq k j)) [ inl c ↦ rw c refl | inr c ↦ rw c refl ]))

pub mem_get-erase :
    (d : List (Bytes × Bytes)) (k j : Bytes) (d' : List (Bytes × Bytes))
    → ◌≡◌ {A = Res (List (Bytes × Bytes))} (ok (erase k d)) (ok d')
    → mem_get d' j ≡ (if bytes_eq k j then err key_not_found else mem_get d j)
unfolding mem_get found_in
mem_get-erase d k j d' e =
    let same : erase k d ≡ d' = ground (arith, e) in
    let law = lookup-erase k j d in
    rw (← same)
      (rw law (elim (Bool-cases (bytes_eq k j)) [ inl c ↦ rw c refl | inr c ↦ rw c refl ]))

abbrev pub mem_kv : Kv
mem_kv = record {
  Db = List (Bytes × Bytes);
  get = mem_get;
  put = λ d k v. ok (insert k v d);
  del = λ d k. ok (erase k d);
  entries = λ d. d;
  get-put = mem_get-insert;
  get-del = mem_get-erase;
}

-- A vote package is the bytes of its votes, and boxes are not closed.
abbrev pub sample_accounts : Deps
sample_accounts = record {
  kv = mem_kv;
  results_codec = codec_of strings_ser;
  endings_codec = codec_of strings_ser;
  base64_decode = λ b. ok b;
  unmarshal_package = λ b. ok (record { nonce = []; votes = map pos b });
  decrypt = λ pair box. ok box;
}
