-- ===== src/Vochain/State/Votes/Listing.antt =====
-- CountVotes and EnvelopeList against the entries of the vote tree.
use go_dvote.Statedb.{TreeName}
use go_dvote.Statedb.Iterate.{iterate}
use go_dvote.Statedb.Iterate.Ranges.{
  iterate-with_prefix, with_prefix, long-with_prefix, lookup-iterate, in_range-beyond,
  has_prefix-beyond,
}
use go_dvote.Db.{has_prefix}
use go_dvote.Vochain.State.{tree_get}
use go_dvote.Prelude.{
  [], ◌∷◌, Bytes, drop, ℕ, List, ◌+◌, ◌<◌, length, ◌^◌, for_each, ◌≡◌, All, ap, arith, ◌≤◌, ◌∷◌,
  ◌++◌, map, ◌∙◌, take, ◌-◌, sym, suc, Bool, refl, lookup, some, if◌then◌else◌, false,
}
use go_dvote.Prelude.Int.{add64, wrap64, ◌+ℤ◌, pos}
use go_dvote.Vochain.State.Votes.{
  envelope_loop, Deps, ChainState, vote_entries, envelope_list, count_votes,
}
use mathlib.Core.List.{append-nil, append_assoc}
use Prim.Native.Nat.{zero}
use native.Mathlib.Decide.{dec_lt}
use mathlib.Core.Bool.{true, false}

add64_one : (i : ℕ) → i + 1 < 2 ^ 63 → add64 (pos i) (pos 1) ≡ pos (i + 1)
unfolding add64 wrap64 ◌+ℤ◌
add64_one i h = ground arith

count_from :
    {A : Type 0} (es : List A) (i : ℕ)
    → i + length es < 2 ^ 63
    → for_each (λ count kv. add64 count (pos 1)) (pos i) es ≡ pos (i + length es)
count_from [] i h = ap pos (omega arith)
count_from (e ∷ es) i h =
    rw (add64_one i (omega arith)) (count_from es (i + 1) (omega arith) ∙ ap pos (omega arith))

-- The nullifier in the key of a vote.
abbrev pub nullifier_of : Bytes × Bytes → Bytes
nullifier_of e = drop 32 e.0

module _ (f u i : ℕ) (acc : List Bytes) (key value : Bytes) (es : List (Bytes × Bytes)) where
  loop_stop : u ≤ i → envelope_loop (pos f) (pos u) (pos i) acc ((key, value) ∷ es) ≡ acc
  unfolding envelope_loop
  loop_stop h = ground arith

  loop_take :
      f ≤ i
      → i < u
      → u < 2 ^ 63
      → 32 ≤ length key
      → envelope_loop (pos f) (pos u) (pos i) acc ((key, value) ∷ es)
        ≡ envelope_loop (pos f) (pos u) (pos (i + 1)) (acc ++ drop 32 key ∷ []) es
  unfolding envelope_loop
  loop_take h h' b k = let e = add64_one i (omega arith) in ground (arith, e)

  loop_skip :
      i < f
      → i < u
      → u < 2 ^ 63
      → envelope_loop (pos f) (pos u) (pos i) acc ((key, value) ∷ es)
        ≡ envelope_loop (pos f) (pos u) (pos (i + 1)) acc es
  unfolding envelope_loop
  loop_skip h h' b = let e = add64_one i (omega arith) in ground (arith, e)

take_zero {ℓ} : {A : Type ℓ} (n : ℕ) (xs : List A) → n ≡ 0 → take n xs ≡ []
take_zero zero xs h = refl
take_zero (suc n) xs h = absurd (omega arith)

take_nil {ℓ} : {A : Type ℓ} (n : ℕ) → take {A = A} n [] ≡ []
take_nil zero = refl
take_nil (suc n) = refl

drop_nil {ℓ} : {A : Type ℓ} (n : ℕ) → drop {A = A} n [] ≡ []
drop_nil zero = refl
drop_nil (suc n) = refl

module _ (f n : ℕ) (bound : f + n < 2 ^ 63) where
  -- Within the page.
  loop_in_page :
      (es : List (Bytes × Bytes)) (i : ℕ) (acc : List Bytes)
      → All (λ e. 32 ≤ length e.0) es
      → f ≤ i
      → envelope_loop (pos f) (pos (f + n)) (pos i) acc es
        ≡ acc ++ map nullifier_of (take (f + n - i) es)
  loop_in_page [] i acc k h = rw take_nil (unfold envelope_loop in sym (append-nil acc))
  loop_in_page ((key, value) ∷ es) i acc k h = elim (dec_lt i (f + n)) [
    | no p ↦
        loop_stop f (f + n) i acc key value es (omega arith)
        ∙ rw (take_zero (f + n - i) ((key, value) ∷ es) (omega arith)) (sym (append-nil acc))
    | yes p ↦
        let e : f + n - i ≡ suc (f + n - (i + 1)) = omega arith in
        loop_take f (f + n) i acc key value es h p bound k.0
        ∙ loop_in_page es (i + 1) (acc ++ drop 32 key ∷ []) k.1 (omega arith)
        ∙ rw (e, append_assoc)
  ]

  -- Before the page.
  loop_to_page :
      (es : List (Bytes × Bytes)) (i : ℕ) (acc : List Bytes)
      → All (λ e. 32 ≤ length e.0) es
      → i ≤ f
      → envelope_loop (pos f) (pos (f + n)) (pos i) acc es
        ≡ acc ++ map nullifier_of (take n (drop (f - i) es))
  loop_to_page [] i acc k h = rw (drop_nil, take_nil) (unfold envelope_loop in sym (append-nil acc))
  loop_to_page ((key, value) ∷ es) i acc k h = elim (dec_lt i f) [
    | no p ↦
        let e : f - i ≡ 0 = omega arith in
        let e' : f + n - i ≡ n = omega arith in
        loop_in_page ((key, value) ∷ es) i acc k (omega arith) ∙ rw (e, e')
    | yes p ↦
        let e : f - i ≡ suc (f - (i + 1)) = omega arith in
        loop_skip f (f + n) i acc key value es p (omega arith) bound
        ∙ loop_to_page es (i + 1) acc k.1 (omega arith)
        ∙ rw e
  ]

add64_pos : (a b : ℕ) → a + b < 2 ^ 63 → add64 (pos a) (pos b) ≡ pos (a + b)
unfolding add64 wrap64 ◌+ℤ◌
add64_pos a b h = ground arith

map-take {ℓ κ} :
    {A : Type ℓ} {B : Type κ} (f : A → B) (n : ℕ) (xs : List A)
    → map f (take n xs) ≡ take n (map f xs)
map-take f zero xs = refl
map-take f (suc n) [] = refl
map-take f (suc n) (x ∷ xs) = rw (map-take f n xs)

map-drop {ℓ κ} :
    {A : Type ℓ} {B : Type κ} (f : A → B) (n : ℕ) (xs : List A)
    → map f (drop n xs) ≡ drop n (map f xs)
map-drop f zero xs = refl
map-drop f (suc n) [] = refl
map-drop f (suc n) (x ∷ xs) = map-drop f n xs

length-map {ℓ κ} :
    {A : Type ℓ} {B : Type κ} (xs : List A) (f : A → B) → length (map f xs) ≡ length xs
length-map [] f = refl
length-map (x ∷ xs) f = ap suc (length-map xs f)

map-window :
    (from size : ℕ) (es : List (Bytes × Bytes))
    → map nullifier_of (take size (drop (from - 0) es))
      ≡ take size (drop from (map nullifier_of es))
map-window from size es = let e : from - 0 ≡ from = omega arith in rw e (rw (map-take, map-drop))

-- The pairs of the vote tree.
abbrev pub vote_pairs : (X : Deps) → Bool → ChainState X → List (Bytes × Bytes)
vote_pairs X is_query s =
    if is_query
    then X.db.pairs_immutable s.store TreeName.vote_tree
    else X.db.pairs s.store TreeName.vote_tree

vote_entries-iterate :
    (X : Deps) (pid : Bytes) (is_query : Bool) (s : ChainState X)
    → vote_entries X pid is_query s ≡ iterate pid (vote_pairs X is_query s)
unfolding vote_entries
vote_entries-iterate X pid true s = X.db.entries_immutable-iterate s.store TreeName.vote_tree pid
vote_entries-iterate X pid false s = X.db.entries-iterate s.store TreeName.vote_tree pid

vote_pairs-tree_get :
    (X : Deps) (is_query : Bool) (s : ChainState X) (key : Bytes)
    → tree_get X TreeName.vote_tree is_query key s ≡ lookup key (vote_pairs X is_query s)
unfolding tree_get
vote_pairs-tree_get X true s key = X.db.get_immutable-pairs s.store TreeName.vote_tree key
vote_pairs-tree_get X false s key = X.db.get-pairs s.store TreeName.vote_tree key

listed_entries :
    (X : Deps) (pid : Bytes) (from size : ℕ) (is_query : Bool) (s : ChainState X)
    (es : List (Bytes × Bytes))
    → vote_entries X pid is_query s ≡ es
    → from + size < 2 ^ 63
    → length es < 2 ^ 63
    → All (λ e. 32 ≤ length e.0) es
    → (envelope_list X pid (pos from) (pos size) is_query s
        ≡ take size (drop from (map nullifier_of es)))
      × (count_votes X pid is_query s ≡ pos (length (map nullifier_of es)))
unfolding envelope_list count_votes
listed_entries X pid from size is_query s es e b c k = (
  rw e (
      rw (add64_pos from size b)
        (loop_to_page from size b es 0 [] k (omega arith) ∙ map-window from size es)),
  rw e (count_from es 0 (omega arith) ∙ ap pos (omega (arith, length-map es nullifier_of))),
)

-- For a process id of 32 bytes whose last byte is not 0xFF, a page of EnvelopeList is a window on the
-- nullifiers of the votes whose keys begin with the process id, in the order of the tree, and
-- CountVotes is their number. The page starts at `from` and has `size` entries at most. The bounds
-- say that no `int64` of the loops overflows.
pub envelope_list-eq-window :
    (X : Deps) (q : Bytes) (b : ℕ) (from size : ℕ) (is_query : Bool) (s : ChainState X)
    → length (q ++ b ∷ []) ≡ 32
    → b < 255
    → from + size < 2 ^ 63
    → length (with_prefix (q ++ b ∷ []) (vote_pairs X is_query s)) < 2 ^ 63
    → (envelope_list X (q ++ b ∷ []) (pos from) (pos size) is_query s
        ≡ take size
            (drop from (map nullifier_of (with_prefix (q ++ b ∷ []) (vote_pairs X is_query s)))))
      × (count_votes X (q ++ b ∷ []) is_query s
          ≡ pos (length (map nullifier_of (with_prefix (q ++ b ∷ []) (vote_pairs X is_query s)))))
envelope_list-eq-window X q b from size is_query s len low page few =
    let pid = q ++ b ∷ [] in
    let entries =
      vote_entries-iterate X pid is_query s
      ∙ iterate-with_prefix q b (vote_pairs X is_query s) low in
    let long = long-with_prefix pid (vote_pairs X is_query s) in
    listed_entries X pid from size is_query s (with_prefix pid (vote_pairs X is_query s)) entries
      page few (rw len at long)

-- For a process id that ends in a byte under 0xFF and 0xFF, a stored vote whose key has the byte
-- increased at that place, and a byte under 0xFF after it, is an entry of EnvelopeList and of CountVotes, though its key
-- does not begin with the process id.
pub vote_entries-tree_get :
    (X : Deps) (q : Bytes) (b c : ℕ) (k v : Bytes) (is_query : Bool) (s : ChainState X)
    → b < 255
    → c < 255
    → tree_get X TreeName.vote_tree is_query (q ++ suc b ∷ c ∷ k) s ≡ some v
    → (lookup (q ++ suc b ∷ c ∷ k) (vote_entries X (q ++ b ∷ 255 ∷ []) is_query s) ≡ some v)
      × (has_prefix (q ++ b ∷ 255 ∷ []) (q ++ suc b ∷ c ∷ k) ≡ false)
vote_entries-tree_get X q b c k v is_query s low low' stored =
    let key = q ++ suc b ∷ c ∷ k in
    let pid = q ++ b ∷ 255 ∷ [] in
    (
      rw (vote_entries-iterate X pid is_query s) (
          lookup-iterate pid key (vote_pairs X is_query s) (in_range-beyond q b c k low low')
          ∙ (sym (vote_pairs-tree_get X is_query s key) ∙ stored)),
      has_prefix-beyond q b c k,
    )
