-- ===== src/Prelude/Faults.antt =====
-- What goes wrong below the types: an access past the end of a vector, or the front of an empty
-- queue, which are undefined in C++, and an exception that nothing catches.
use Prim.Native.Nat.{ℕ}
use mathlib.Core.List.{List}
use mathlib.Core.Path.{◌≡◌, ap}
use mathlib.Core.Option.{Option, none, some}
use hive_mind_bridge.Prelude.Lists.{get_elem?}

pub data Access {ℓ} (A : Type ℓ) : Type ℓ where
  value : A → Access A
  undefined_behaviour : Access A
  uncaught_exception : Access A

infixl 5 ◌>>=◌
abbrev pub ◌>>=◌ {ℓ κ} : {A : Type ℓ} {B : Type κ} → Access A → (A → Access B) → Access B
value a >>= f = f a
undefined_behaviour >>= f = undefined_behaviour
uncaught_exception >>= f = uncaught_exception

-- xs[i]
abbrev pub at {ℓ} : {A : Type ℓ} → List A → ℕ → Access A
at xs i = elim (get_elem? xs i) [ none ↦ undefined_behaviour | some a ↦ value a ]

-- `std::optional::value` throws on an empty optional.
abbrev pub value_of {ℓ} : {A : Type ℓ} → Option A → Access A
value_of none = uncaught_exception
value_of (some a) = value a

-- The access gives a value with `Q`, or its behaviour is undefined and `F` holds. No exception escapes.
abbrev pub Outcome {ℓ} : {A : Type ℓ} → (Q : A → Type 0) → (F : Type 0) → Access A → Type 0
Outcome Q F (value x) = Q x
Outcome Q F undefined_behaviour = F
Outcome Q F uncaught_exception = ⊥

pub Outcome-bind {ℓ κ} :
    {A : Type ℓ} {B : Type κ} (Q : A → Type 0) (R : B → Type 0) (F : Type 0) (a : Access A)
    (f : A → Access B)
    → Outcome Q F a
    → ((x : A) → Q x → Outcome R F (f x))
    → Outcome R F (a >>= f)
Outcome-bind Q R F (value x) f h k = k x h
Outcome-bind Q R F undefined_behaviour f h k = h
Outcome-bind Q R F uncaught_exception f h k = absurd h

pub Outcome-fault {ℓ} :
    {A : Type ℓ} (Q : A → Type 0) (F G : Type 0) (a : Access A)
    → (F → G)
    → Outcome Q F a
    → Outcome Q G a
Outcome-fault Q F G (value x) k h = h
Outcome-fault Q F G undefined_behaviour k h = k h
Outcome-fault Q F G uncaught_exception k h = absurd h

pub Outcome-value {ℓ} :
    {A : Type ℓ} (Q R : A → Type 0) (F : Type 0) (a : Access A)
    → ((x : A) → Q x → R x)
    → Outcome Q F a
    → Outcome R F a
Outcome-value Q R F (value x) k h = k x h
Outcome-value Q R F undefined_behaviour k h = h
Outcome-value Q R F uncaught_exception k h = absurd h

pub value-inj {ℓ} : {A : Type ℓ} (x y : A) → value x ≡ value y → x ≡ y
value-inj x y e =
    ap (λ a. elim a [ value z ↦ z | undefined_behaviour ↦ x | uncaught_exception ↦ x ]) e
