-- ===== src/Prelude/Interleave.antt =====
-- Two lists one among the other, each in its order.
use Prim.Native.Nat.{ℕ, ◌+◌}
use mathlib.Core.Path.{◌≡◌, refl}
use mathlib.Core.List.{List, [], ◌∷◌, ◌++◌, append-nil}
use mathlib.Core.Bool.{Bool, true, false}
use native.Mathlib.Omega.{arith}
use hive_mind_bridge.Prelude.Lists.{All, All-append}

module _ {ℓ} {A : Type ℓ} where
  -- Each entry of the schedule says which list the next element is of, `true` for the second one.
  abbrev pub interleave : (schedule : List Bool) → (xs ys : List A) → List A
  interleave [] xs ys = xs ++ ys
  interleave (b ∷ bs) [] ys = ys
  interleave (false ∷ bs) (x ∷ xs) [] = x ∷ xs
  interleave (true ∷ bs) (x ∷ xs) [] = x ∷ xs
  interleave (false ∷ bs) (x ∷ xs) (y ∷ ys) = x ∷ interleave bs xs (y ∷ ys)
  interleave (true ∷ bs) (x ∷ xs) (y ∷ ys) = y ∷ interleave bs (x ∷ xs) ys

  pub interleave-nil : (schedule : List Bool) (xs : List A) → interleave schedule xs [] ≡ xs
  interleave-nil [] xs = append-nil xs
  interleave-nil (b ∷ bs) [] = refl
  interleave-nil (false ∷ bs) (x ∷ xs) = refl
  interleave-nil (true ∷ bs) (x ∷ xs) = refl

  pub All-interleave :
      (Q : A → Type 0) (schedule : List Bool) (xs ys : List A)
      → All Q xs
      → All Q ys
      → All Q (interleave schedule xs ys)
  All-interleave Q [] xs ys h k = All-append Q xs ys h k
  All-interleave Q (b ∷ bs) [] ys h k = k
  All-interleave Q (false ∷ bs) (x ∷ xs) [] h k = h
  All-interleave Q (true ∷ bs) (x ∷ xs) [] h k = h
  All-interleave Q (false ∷ bs) (x ∷ xs) (y ∷ ys) (h, hs) k =
      (h, All-interleave Q bs xs (y ∷ ys) hs k)
  All-interleave Q (true ∷ bs) (x ∷ xs) (y ∷ ys) h (k, ks) =
      (k, All-interleave Q bs (x ∷ xs) ys h ks)

  -- The weights of the elements, added up.
  abbrev pub total : (weight : A → ℕ) → List A → ℕ
  total weight [] = 0
  total weight (x ∷ xs) = weight x + total weight xs

  -- What is counted element by element does not depend on the schedule.
  module _ (measure : List A → ℕ) (weight : A → ℕ) (none : measure [] ≡ 0)
      (first : (x : A) (xs : List A) → measure (x ∷ xs) ≡ weight x + measure xs) where
    pub measure-append : (xs ys : List A) → measure (xs ++ ys) ≡ measure xs + measure ys
    measure-append [] ys = omega arith
    measure-append (x ∷ xs) ys = omega (arith, first x (xs ++ ys), first x xs, measure-append xs ys)

    pub measure-interleave :
        (schedule : List Bool) (xs ys : List A)
        → measure (interleave schedule xs ys) ≡ measure xs + measure ys
    measure-interleave [] xs ys = measure-append xs ys
    measure-interleave (b ∷ bs) [] ys = omega arith
    measure-interleave (false ∷ bs) (x ∷ xs) [] = omega arith
    measure-interleave (true ∷ bs) (x ∷ xs) [] = omega arith
    measure-interleave (false ∷ bs) (x ∷ xs) (y ∷ ys) =
        omega (
          arith,
          first x (interleave bs xs (y ∷ ys)),
          first x xs,
          measure-interleave bs xs (y ∷ ys),
        )
    measure-interleave (true ∷ bs) (x ∷ xs) (y ∷ ys) =
        omega (
          arith,
          first y (interleave bs (x ∷ xs) ys),
          first y ys,
          measure-interleave bs (x ∷ xs) ys,
        )
