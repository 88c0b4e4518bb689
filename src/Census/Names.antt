-- ===== src/Census/Names.antt =====
-- census/census.go: the names of the namespaces.
pub mod Kept
pub mod Imported
pub mod Served
pub mod Steps
use go_dvote.Census.{Namespace}
use go_dvote.Census.Namespaces.{has_namespace, remove_namespace}
use go_dvote.Prelude.{
  Bytes, List, Bool, ◌≡◌, ◌++◌, ◌∷◌, false, true, [], not, arith, refl, bytes_eq_iff, ◌&&◌, ◌||◌,
  bytes_eq,
}

-- No two namespaces have the same name.
unfoldable pub distinct : List Namespace → Bool
distinct [] = true
distinct (n ∷ ns) = not (has_namespace n.name ns) && distinct ns

pub has_namespace-++ :
    (name : Bytes) (n : Namespace) (ns : List Namespace)
    → has_namespace name (ns ++ n ∷ []) ≡ (has_namespace name ns || bytes_eq name n.name)
unfolding has_namespace
has_namespace-++ name n [] = ground arith
has_namespace-++ name n (n' ∷ ns) = ground (arith, has_namespace-++ name n ns)

distinct-++ :
    (n : Namespace) (ns : List Namespace)
    → has_namespace n.name ns ≡ false
    → distinct ns ≡ true
    → distinct (ns ++ n ∷ []) ≡ true
unfolding distinct has_namespace
distinct-++ n [] h d = refl
distinct-++ n (n' ∷ ns) h d = ground (
  arith,
  distinct-++ n ns,
  has_namespace-++ n'.name n ns,
  bytes_eq_iff n.name n'.name,
  bytes_eq_iff n'.name n.name,
)

has_namespace-remove_namespace :
    (name other : Bytes) (ns : List Namespace)
    → has_namespace other ns ≡ false
    → has_namespace other (remove_namespace name ns) ≡ false
unfolding has_namespace remove_namespace
has_namespace-remove_namespace name other [] h = refl
has_namespace-remove_namespace name other (n ∷ ns) h =
    ground (arith, has_namespace-remove_namespace name other ns)

distinct-remove_namespace :
    (name : Bytes) (ns : List Namespace)
    → distinct ns ≡ true
    → distinct (remove_namespace name ns) ≡ true
unfolding distinct remove_namespace
distinct-remove_namespace name [] d = refl
distinct-remove_namespace name (n ∷ ns) d =
    ground (arith, distinct-remove_namespace name ns, has_namespace-remove_namespace name n.name ns)

pub remove_namespace-gone :
    (name : Bytes) (ns : List Namespace)
    → distinct ns ≡ true
    → has_namespace name (remove_namespace name ns) ≡ false
unfolding distinct has_namespace remove_namespace
remove_namespace-gone name [] d = refl
remove_namespace-gone name (n ∷ ns) d =
    ground
      (arith, remove_namespace-gone name ns, bytes_eq_iff n.name name, bytes_eq_iff name n.name)
