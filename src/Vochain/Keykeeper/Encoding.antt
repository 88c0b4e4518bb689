-- ===== src/Vochain/Keykeeper/Encoding.antt =====
-- Encode and Decode of the keys of a process.
use go_dvote.Prelude.{
  Bytes, List, [], ◌∷◌, ℕ, zero, suc, ok, arith, refl, length, ◌≡◌, ◌≤◌, drop, take, get_or, ◌++◌,
  ◌+◌, ap, take-append, set, replicate, length-append, length-replicate, ◌-◌, ◌∙◌, sym,
}
use go_dvote.Vochain.Keykeeper.{ProcessKeys}
use go_dvote.Vochain.Keykeeper.Generate.{copy_at, encode, decode}

module _ {ℓ} {A : Type ℓ} where
  append_assoc : (xs ys zs : List A) → xs ++ (ys ++ zs) ≡ (xs ++ ys) ++ zs
  append_assoc [] ys zs = refl
  append_assoc (x ∷ xs) ys zs = ap (λ us. x ∷ us) (append_assoc xs ys zs)

  pub take_all : (n : ℕ) (b : List A) → length b ≤ n → take n b ≡ b
  take_all zero [] h = refl
  take_all (suc n) [] h = refl
  take_all zero (x ∷ b) h = absurd (omega arith)
  take_all (suc n) (x ∷ b) h = ap (λ ys. x ∷ ys) (take_all n b (omega arith))

  take_first : (n : ℕ) (xs ys : List A) → length xs ≡ n → take n (xs ++ ys) ≡ xs
  take_first n xs ys h = rw h at (take-append xs ys)

  drop_first : (n m : ℕ) (xs ys : List A) → length xs ≡ n → drop (n + m) (xs ++ ys) ≡ drop m ys
  drop_first zero m [] ys h = let e : 0 + m ≡ m = omega arith in rw e refl
  drop_first (suc n) m [] ys h = absurd (omega arith)
  drop_first zero m (x ∷ xs) ys h = absurd (omega arith)
  drop_first (suc n) m (x ∷ xs) ys h =
      let e : suc n + m ≡ suc (n + m) = omega arith in rw e (drop_first n m xs ys (omega arith))

  get_or_first :
      (n m : ℕ) (xs ys : List A) (d : A)
      → length xs ≡ n
      → get_or (xs ++ ys) (n + m) d ≡ get_or ys m d
  get_or_first zero m [] ys d h = let e : 0 + m ≡ m = omega arith in rw e refl
  get_or_first (suc n) m [] ys d h = absurd (omega arith)
  get_or_first zero m (x ∷ xs) ys d h = absurd (omega arith)
  get_or_first (suc n) m (x ∷ xs) ys d h =
      let e : suc n + m ≡ suc (n + m) = omega arith in rw e (get_or_first n m xs ys d (omega arith))

  set_first :
      (n m : ℕ) (xs ys : List A) (v : A)
      → length xs ≡ n
      → set (xs ++ ys) (n + m) v ≡ xs ++ set ys m v
  set_first zero m [] ys v h = let e : 0 + m ≡ m = omega arith in rw e refl
  set_first (suc n) m [] ys v h = absurd (omega arith)
  set_first zero m (x ∷ xs) ys v h = absurd (omega arith)
  set_first (suc n) m (x ∷ xs) ys v h =
      let e : suc n + m ≡ suc (n + m) = omega arith in
      rw e (ap (λ zs. x ∷ zs) (set_first n m xs ys v (omega arith)))

  drop-replicate : (n k : ℕ) (a : A) → drop n (replicate (n + k) a) ≡ replicate k a
  drop-replicate zero k a = let e : 0 + k ≡ k = omega arith in rw e refl
  drop-replicate (suc n) k a =
      let e : suc n + k ≡ suc (n + k) = omega arith in rw e (drop-replicate n k a)

-- A copy of a key of 32 bytes behind what was copied before.
copied :
    (i k : ℕ) (front src : Bytes)
    → length front ≡ i
    → length src ≡ 32
    → copy_at i src (front ++ replicate (32 + k) 0) ≡ (front ++ src) ++ replicate k 0
unfolding copy_at
copied i k front src h h' =
    let zeros : Bytes = replicate (32 + k) 0 in
    let len = length-append front zeros in
    let len' = length-replicate {A = ℕ} (32 + k) 0 in
    let before = take_first i front zeros h in
    let room : length src ≤ length (front ++ zeros) - i = ground (arith, len, len', h, h') in
    let whole = take_all (length (front ++ zeros) - i) src room in
    let behind = drop_first i (length src) front zeros h in
    let left : drop (length src) zeros ≡ replicate k 0 = rw h' (drop-replicate 32 k 0) in
    rw (before, whole, behind, left) (append_assoc front src (replicate k 0))

abbrev pub HasKeys : ProcessKeys → Type 0
HasKeys pk =
    (length pk.pub_key ≡ 32)
    × (length pk.priv_key ≡ 32)
    × (length pk.reveal_key ≡ 32)
    × (length pk.commitment_key ≡ 32)

-- The four keys and the index one after the other.
joined : (a b c d : Bytes) → ℕ → Bytes
joined a b c d x = (((a ++ b) ++ c) ++ d) ++ x ∷ []

module _ (a b c d : Bytes) (x : ℕ) (la : length a ≡ 32) (lb : length b ≡ 32) (lc : length c ≡ 32)
    (ld : length d ≡ 32) where
  l2 : length (a ++ b) ≡ 64
  l2 = ground (arith, length-append a b, la, lb)

  l3 : length ((a ++ b) ++ c) ≡ 96
  l3 = ground (arith, length-append (a ++ b) c, l2, lc)

  l4 : length (((a ++ b) ++ c) ++ d) ≡ 128
  l4 = ground (arith, length-append ((a ++ b) ++ c) d, l3, ld)

  copied_all :
      set (copy_at 96 d (copy_at 64 c (copy_at 32 b (copy_at 0 a (replicate 129 0))))) 128 x
      ≡ joined a b c d x
  unfolding joined
  copied_all =
      ap (λ buf. set (copy_at 96 d (copy_at 64 c (copy_at 32 b buf))) 128 x)
        (copied 0 97 [] a refl la)
      ∙ ap (λ buf. set (copy_at 96 d (copy_at 64 c buf)) 128 x) (copied 32 65 a b la lb)
      ∙ ap (λ buf. set (copy_at 96 d buf) 128 x) (copied 64 33 (a ++ b) c l2 lc)
      ∙ ap (λ buf. set buf 128 x) (copied 96 1 ((a ++ b) ++ c) d l3 ld)
      ∙ set_first 128 0 (((a ++ b) ++ c) ++ d) (0 ∷ []) x l4

  joined_eq : joined a b c d x ≡ a ++ (b ++ (c ++ (d ++ x ∷ [])))
  unfolding joined
  joined_eq =
      sym (append_assoc ((a ++ b) ++ c) d (x ∷ []))
      ∙ sym (append_assoc (a ++ b) c (d ++ x ∷ []))
      ∙ sym (append_assoc a b (c ++ (d ++ x ∷ [])))

  length-joined : length (joined a b c d x) ≡ 129
  unfolding joined
  length-joined = ground (arith, length-append (((a ++ b) ++ c) ++ d) (x ∷ []), l4)

  part_a : take 32 (joined a b c d x) ≡ a
  part_a = rw joined_eq (take_first 32 a (b ++ (c ++ (d ++ x ∷ []))) la)

  part_b : take 32 (drop 32 (joined a b c d x)) ≡ b
  part_b =
      let rest = b ++ (c ++ (d ++ x ∷ [])) in
      ap (λ u. take 32 (drop 32 u)) joined_eq
      ∙ ap (λ u. take 32 u) (drop_first 32 0 a rest la)
      ∙ take_first 32 b (c ++ (d ++ x ∷ [])) lb

  part_c : take 32 (drop 64 (joined a b c d x)) ≡ c
  part_c =
      let rest = c ++ (d ++ x ∷ []) in
      ap (λ u. take 32 (drop 64 u)) joined_eq
      ∙ ap (λ u. take 32 u) (drop_first 32 32 a (b ++ rest) la ∙ drop_first 32 0 b rest lb)
      ∙ take_first 32 c (d ++ x ∷ []) lc

  part_d : take 32 (drop 96 (joined a b c d x)) ≡ d
  part_d =
      let rest = d ++ x ∷ [] in
      ap (λ u. take 32 (drop 96 u)) joined_eq
      ∙ ap (λ u. take 32 u)
          (drop_first 32 64 a (b ++ (c ++ rest)) la
            ∙ drop_first 32 32 b (c ++ rest) lb
            ∙ drop_first 32 0 c rest lc)
      ∙ take_first 32 d (x ∷ []) ld

  part_x : get_or (joined a b c d x) 128 0 ≡ x
  unfolding joined
  part_x = get_or_first 128 0 (((a ++ b) ++ c) ++ d) (x ∷ []) 0 l4

encode-joined :
    (pk : ProcessKeys)
    → HasKeys pk
    → encode pk ≡ joined pk.pub_key pk.priv_key pk.reveal_key pk.commitment_key pk.index
unfolding encode
encode-joined pk (la, lb, lc, ld) =
    copied_all pk.pub_key pk.priv_key pk.reveal_key pk.commitment_key pk.index la lb lc ld

-- Keys whose four parts have 32 bytes are encoded to 129 bytes, from which Decode restores them.
pub decode-encode :
    (pk : ProcessKeys) → HasKeys pk → (length (encode pk) ≡ 129) × (decode (encode pk) ≡ ok pk)
unfolding decode
decode-encode pk (la, lb, lc, ld) =
    let p = pk.pub_key in
    let q = pk.priv_key in
    let r = pk.reveal_key in
    let t = pk.commitment_key in
    let bytes = encode-joined pk (la, lb, lc, ld) in
    let size = length-joined p q r t pk.index la lb lc ld in
    let a = part_a p q r t pk.index la lb lc ld in
    let b = part_b p q r t pk.index la lb lc ld in
    let c = part_c p q r t pk.index la lb lc ld in
    let d = part_d p q r t pk.index la lb lc ld in
    let x = part_x p q r t pk.index la lb lc ld in
    rw bytes (size, rw size (rw a (rw b (rw c (rw d (rw x refl))))))
