-- ===== src/Db.antt =====
-- db/interface.go and db/badger.go: the key-value database that the scrutinizer and the key keeper
-- store to.
use go_dvote.Prelude.{
  Bytes, List, [], ◌∷◌, Res, ok, err, panic, Bool, true, false, ◌≡◌, key_not_found, if◌then◌else◌,
  ltb, ◌==◌, ◌||◌, ◌&&◌, bytes_eq,
}

-- Database, as BadgerDB implements it over badger. A missing key is the error `key_not_found`.
-- `entries` are the pairs that an iterator visits, in ascending order of their keys.
pub record Kv : Type 1 where
  pub Db : Type 0
  pub get : Db → Bytes → Res Bytes
  pub put : Db → Bytes → Bytes → Res Db
  pub del : Db → Bytes → Res Db
  pub entries : Db → List (Bytes × Bytes)
  -- What was put is read back under its key, and a deleted key is missing; other keys stay.
  pub get-put :
      (d : Db) (k j v : Bytes) (d' : Db)
      → put d k v ≡ ok d'
      → get d' j ≡ (if bytes_eq k j then ok v else get d j)
  pub get-del :
      (d : Db) (k j : Bytes) (d' : Db)
      → del d k ≡ ok d'
      → get d' j ≡ (if bytes_eq k j then err key_not_found else get d j)

-- Has: an error other than a missing key comes with the answer true.
unfoldable pub has_of : Res Bytes → Bool × Res (Unit {0})
has_of (ok v) = (true, ok tt)
has_of (err key_not_found) = (false, ok tt)
has_of (err e) = (true, err e)
has_of panic = (true, panic)

-- bytes.Compare(a, b) < 0
unfoldable pub bytes_lt : Bytes → Bytes → Bool
bytes_lt [] [] = false
bytes_lt [] (b ∷ y) = true
bytes_lt (a ∷ x) [] = false
bytes_lt (a ∷ x) (b ∷ y) = ltb a b || (a == b && bytes_lt x y)

-- bytes.HasPrefix
unfoldable pub has_prefix : Bytes → Bytes → Bool
has_prefix [] k = true
has_prefix (p ∷ ps) [] = false
has_prefix (p ∷ ps) (c ∷ k) = p == c && has_prefix ps k

-- The iterator after Seek: from the first key that is not below the given one.
unfoldable pub seek : Bytes → List (Bytes × Bytes) → List (Bytes × Bytes)
unfolding bytes_lt
seek start [] = []
seek start ((k, v) ∷ es) =
    let rest = seek start es in if bytes_lt k start then rest else (k, v) ∷ es
