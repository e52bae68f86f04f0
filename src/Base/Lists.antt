-- ===== src/Base/Lists.antt =====
-- Lists measured by native numbers, and lists without repetition compared by their members.
use Prim.Native.Nat.{ℕ, suc, ◌+◌, ◌≤◌}
use mathlib.Core.Path.{◌≡◌, refl, sym, ap}
use mathlib.Core.List.{
  List, [], ◌∷◌, ◌++◌, map, Nodup, Subset, nil≢cons, head-eq_of_cons-eq, tail-eq_of_cons-eq,
}
use mathlib.Core.List as L
use mathlib.Core.List.Nodup as N
use mathlib.Core.List.Subperm
use native.Mathlib.Bridge.{from_ℕ, from_le}
use native.Mathlib.Omega.{arith}

module _ {ℓ} {A : Type ℓ} where
  abbrev pub length : List A → ℕ
  length [] = 0
  length (x ∷ xs) = suc (length xs)

  pub length-append : (xs ys : List A) → length (xs ++ ys) ≡ length xs + length ys
  length-append [] ys = omega arith
  length-append (x ∷ xs) ys = omega (arith, length-append xs ys)

  -- The library's unary length, carried over.
  length-from_ℕ : (xs : List A) → from_ℕ (L.length xs) ≡ length xs
  length-from_ℕ [] = refl
  length-from_ℕ (x ∷ xs) = ap suc (length-from_ℕ xs)

  -- A list without repetition is no longer than a list that has all its members.
  pub length-le_of_subset : (xs ys : List A) → Nodup xs → Subset xs ys → length xs ≤ length ys
  length-le_of_subset xs ys d h =
      omega (arith, length-from_ℕ xs, length-from_ℕ ys, from_le (Subperm.length-le (N.subperm d h)))

-- Lists are decided member by member.
module _ {A : Type 0} (dec : Discrete A) where
  unfoldable pub list_discrete : Discrete (List A)
  list_discrete [] [] = yes refl
  list_discrete [] (y ∷ ys) = no nil≢cons
  list_discrete (x ∷ xs) [] = no (λ e. nil≢cons (sym e))
  list_discrete (x ∷ xs) (y ∷ ys) =
      let rest = list_discrete xs ys in
      elim (dec x y) [
        | yes p ↦ elim rest [
          | yes q ↦ yes (λ i. p i ∷ q i)
          | no n ↦ no (λ e. n (tail-eq_of_cons-eq e))
        ]
        | no n ↦ no (λ e. n (head-eq_of_cons-eq e))
      ]

pub length-map {ℓ κ} :
    {A : Type ℓ} {B : Type κ} (f : A → B) (xs : List A) → length (map f xs) ≡ length xs
length-map f [] = refl
length-map f (x ∷ xs) = ap suc (length-map f xs)
