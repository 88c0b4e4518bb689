-- ===== src/Sample/Codec.antt =====
-- A self-delimiting encoding of the chain's records as lists of numbers, with its round trip.
use mathlib.Core.List.{append_assoc, append-nil}
use go_dvote.Prelude.{
  Bytes, ◌≡◌, ◌++◌, ℕ, Option, ok, Bool, List, ◌∷◌, Res, some, length, false, none, err, [], suc,
  library, ◌∙◌, arith, refl, is_set, ap,
}
use go_dvote.Types.{Vote, Process, GenesisValidator, Header, Slice}
use go_dvote.Prelude.Int.{ℤ, pos, negsuc}
use go_dvote.Vochain.Deps.{Codec}
use mathlib.Core.Bool.{true}
use Prim.Native.Nat.{zero}

pub record Ser (A : Type 0) : Type 0 where
  pub put : A → Bytes
  pub get : Bytes → Option (A × Bytes)
  pub get-put : (a : A) (rest : Bytes) → get (put a ++ rest) ≡ some (a, rest)

abbrev then_get : {A B : Type 0} → Option (A × Bytes) → (A → Bytes → Option B) → Option B
then_get none f = none
then_get (some (a, rest)) f = f a rest

get_number : Bytes → Option (ℕ × Bytes)
get_number [] = none
get_number (n ∷ rest) = some (n, rest)

number : Ser ℕ
unfolding get_number
number = record { put = λ n. n ∷ []; get = get_number; get-put = λ n rest. refl }

module _ {A B : Type 0} (S : Ser A) (to : B → A) (from : A → B)
    (back : (b : B) → from (to b) ≡ b) where
  unfoldable pub get_mapped : Bytes → Option (B × Bytes)
  get_mapped bytes = then_get (S.get bytes) (λ a rest. some (from a, rest))

  pub get_mapped-put : (b : B) (rest : Bytes) → get_mapped (S.put (to b) ++ rest) ≡ some (b, rest)
  unfolding get_mapped
  get_mapped-put b rest = rw (S.get-put (to b) rest, back b)

  mapped : Ser B
  unfolding get_mapped
  mapped = record { put = λ b. S.put (to b); get = get_mapped; get-put = get_mapped-put }

module _ {A B : Type 0} (S : Ser A) (T : Ser B) where
  unfoldable pub get_both : Bytes → Option ((A × B) × Bytes)
  get_both bytes =
      then_get (S.get bytes) (λ a rest. then_get (T.get rest) (λ b rest'. some ((a, b), rest')))

  pub get_both-put :
      (p : A × B) (rest : Bytes) → get_both ((S.put p.0 ++ T.put p.1) ++ rest) ≡ some (p, rest)
  unfolding get_both
  get_both-put p rest =
      rw (append_assoc (S.put p.0) (T.put p.1) rest)
        (rw (S.get-put p.0 (T.put p.1 ++ rest)) (rw (T.get-put p.1 rest)))

  both : Ser (A × B)
  unfolding get_both
  both = record { put = λ p. S.put p.0 ++ T.put p.1; get = get_both; get-put = get_both-put }

module _ {A : Type 0} (S : Ser A) where
  unfoldable pub put_all : List A → Bytes
  put_all [] = []
  put_all (x ∷ xs) = S.put x ++ put_all xs

  unfoldable pub get_all : ℕ → Bytes → Option (List A × Bytes)
  get_all zero bytes = some ([], bytes)
  get_all (suc n) bytes =
      then_get (S.get bytes)
        (λ x rest. then_get (get_all n rest) (λ xs rest'. some (x ∷ xs, rest')))

  get_all-put_all :
      (xs : List A) (rest : Bytes) → get_all (length xs) (put_all xs ++ rest) ≡ some (xs, rest)
  unfolding get_all put_all
  get_all-put_all [] rest = refl
  get_all-put_all (x ∷ xs) rest =
      rw (append_assoc (S.put x) (put_all xs) rest)
        (rw (S.get-put x (put_all xs ++ rest)) (rw (get_all-put_all xs rest)))

  unfoldable pub get_list : Bytes → Option (List A × Bytes)
  get_list [] = none
  get_list (n ∷ rest) = get_all n rest

  pub get_list-put :
      (xs : List A) (rest : Bytes) → get_list ((length xs ∷ put_all xs) ++ rest) ≡ some (xs, rest)
  unfolding get_list
  get_list-put xs rest = get_all-put_all xs rest

  list : Ser (List A)
  unfolding get_list get_all put_all
  list = record { put = λ xs. length xs ∷ put_all xs; get = get_list; get-put = get_list-put }

unfoldable pub of_bool : Bool → ℕ
of_bool true = 1
of_bool false = 0

unfoldable pub to_bool : ℕ → Bool
to_bool zero = false
to_bool (suc n) = true

pub to_bool-of_bool : (b : Bool) → to_bool (of_bool b) ≡ b
unfolding of_bool to_bool
to_bool-of_bool true = refl
to_bool-of_bool false = refl

bool : Ser Bool
unfolding mapped number of_bool to_bool
bool = mapped number of_bool to_bool to_bool-of_bool

unfoldable pub of_int : ℤ → Bool × ℕ
of_int (pos n) = (true, n)
of_int (negsuc n) = (false, n)

unfoldable pub to_int : Bool × ℕ → ℤ
to_int (true, n) = pos n
to_int (false, n) = negsuc n

pub to_int-of_int : (z : ℤ) → to_int (of_int z) ≡ z
unfolding of_int to_int
to_int-of_int (pos n) = refl
to_int-of_int (negsuc n) = refl

int : Ser ℤ
unfolding mapped both bool number of_int to_int
int = mapped (both bool number) of_int to_int to_int-of_int

bytes : Ser Bytes
unfolding list number
bytes = list number

unfoldable pub header_ser : Ser Header
unfolding mapped both int bytes
header_ser =
    mapped (both int bytes) (λ h. (h.height, h.app_hash))
      (λ p. record { height = p.0; app_hash = p.1 }) (λ h. refl)

unfoldable pub strings_ser : Ser (List Bytes)
unfolding list bytes
strings_ser = list bytes

unfoldable pub validators_ser : Ser (List GenesisValidator)
unfolding list mapped both bytes int
validators_ser = list (
    mapped (both (both bytes bytes) (both int bytes))
      (λ v. ((v.address, v.pub_key), (v.power, v.name)))
      (λ p. record { address = p.0.0; pub_key = p.0.1; power = p.1.0; name = p.1.1 }) (λ v. refl))

unfoldable pub vote_ser : Ser Vote
unfolding mapped both list int bytes
vote_ser =
    mapped (both (both (list int) int) (both bytes (both bytes bytes)))
      (λ v. ((v.encryption_key_indexes, v.height), (v.nullifier, (v.process_id, v.vote_package))))
      (λ p. record {
        encryption_key_indexes = p.0.0;
        height = p.0.1;
        nullifier = p.1.0;
        process_id = p.1.1.0;
        vote_package = p.1.1.1;
      })
      (λ v. refl)

keys_ser : Ser ((List Bytes × List Bytes) × (List Bytes × List Bytes))
unfolding both strings_ser
keys_ser = both (both strings_ser strings_ser) (both strings_ser strings_ser)

unfoldable pub process_ser : Ser Process
unfolding mapped both keys_ser bool int bytes
process_ser =
    mapped
      (both keys_ser
        (both (both (both bool bool) (both int int)) (both int (both bytes (both bytes bytes)))))
      (λ p. (
        ((p.commitment_keys, p.reveal_keys), (p.encryption_private_keys, p.encryption_public_keys)),
        (
          ((p.canceled, p.paused), (p.key_index, p.number_of_blocks)),
          (p.start_block, (p.entity_id, (p.mk_root, p.type))),
        ),
      ))
      (λ t. record {
        canceled = t.1.0.0.0;
        commitment_keys = t.0.0.0;
        encryption_private_keys = t.0.1.0;
        encryption_public_keys = t.0.1.1;
        entity_id = t.1.1.1.0;
        key_index = t.1.0.1.0;
        mk_root = t.1.1.1.1.0;
        number_of_blocks = t.1.0.1.1;
        paused = t.1.0.0.1;
        reveal_keys = t.0.0.1;
        start_block = t.1.1.0;
        type = t.1.1.1.1.1;
      })
      (λ p. refl)

module _ {A : Type 0} (S : Ser A) where
  unfoldable pub decoded : Option (A × Bytes) → Res A
  decoded none = err library
  decoded (some (a, rest)) = ok a

  unfoldable pub unmarshal_with : Slice → Res A
  unmarshal_with none = err library
  unmarshal_with (some []) = err library
  unmarshal_with (some (c ∷ b)) = decoded (S.get b)

  pub unmarshal_with-put :
      (a : A) (b : Bytes)
      → ◌≡◌ {A = Res Slice} (ok (some (1 ∷ S.put a))) (ok (some b))
      → unmarshal_with (some b) ≡ ok a
  unfolding unmarshal_with decoded
  unmarshal_with-put a b e =
      let e' : 1 ∷ (S.put a ++ []) ≡ b = ap (λ t. 1 ∷ t) (append-nil (S.put a)) ∙ ground arith in
      rw (← e', S.get-put a [])

  pub is_set-put :
      (a : A) (b : Bytes)
      → ◌≡◌ {A = Res Slice} (ok (some (1 ∷ S.put a))) (ok (some b))
      → is_set b ≡ true
  is_set-put a b e = ground arith

  unfoldable pub codec_of : Codec A
  unfolding unmarshal_with decoded
  codec_of = record {
    marshal = λ a. ok (some (1 ∷ S.put a));
    unmarshal = unmarshal_with;
    unmarshal-marshal = unmarshal_with-put;
    is_set-marshal = is_set-put;
  }
