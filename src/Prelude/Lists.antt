-- ===== src/Prelude/Lists.antt =====
-- Lemmas on lists.
use Prim.Native.Nat.{suc}
use mathlib.Core.Path.{◌≡◌, refl, ap}
use mathlib.Core.List.{List, [], ◌∷◌, ◌++◌}
use mathlib.Core.Option.{some}
use stylus_popup.Prelude.Tests.{length, get_elem?}

pub append-snoc {ℓ} :
    {A : Type ℓ} (pre : List A) (x : A) (xs : List A) → (pre ++ x ∷ []) ++ xs ≡ pre ++ x ∷ xs
append-snoc [] x xs = refl
append-snoc {A = A} (y ∷ pre) x xs = ap {B = List A} (λ r. y ∷ r) (append-snoc pre x xs)

pub length-snoc {ℓ} : {A : Type ℓ} (xs : List A) (x : A) → length (xs ++ x ∷ []) ≡ suc (length xs)
length-snoc [] x = refl
length-snoc (y ∷ xs) x = ap suc (length-snoc xs x)

-- The element after some others.
pub get_elem?-length {ℓ} :
    {A : Type ℓ} (pre : List A) (x : A) (xs : List A)
    → get_elem? (pre ++ x ∷ xs) (length pre) ≡ some x
get_elem?-length [] x xs = refl
get_elem?-length (y ∷ pre) x xs = get_elem?-length pre x xs
