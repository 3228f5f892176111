-- ===== src/UserCallbackMap/Invariant.antt =====
-- The names and the functions of a `UserCallbackMap` grow together: a name is listed once exactly
-- when it is a key.
use hive_mind_bridge.Prelude.{
  ◌≡◌, refl, ◌∙◌, String, Bool, false, ◌||◌, List, [], ◌∷◌, ◌++◌, arith, lookup, lookup-insert,
  string_eq, Bool-cases, inl, inr, is_set,
}
use hive_mind_bridge.Pheromones.{Pheromones}
use hive_mind_bridge.Callback.{CallbackFunction, CallbackArgsManifest}
use hive_mind_bridge.UserCallbackMap.{UserCallbackMap, new_callback_map, register_callback}

abbrev same : String → String → Bool
same = string_eq.beq

abbrev pub has : String → List String → Bool
has k [] = false
has k (n ∷ ns) = same n k || has k ns

abbrev pub Distinct : List String → Type 0
Distinct [] = Unit {0}
Distinct (n ∷ ns) = (has n ns ≡ false) × Distinct ns

has-append : (k n : String) (ns : List String) → has k (ns ++ n ∷ []) ≡ (has k ns || same n k)
has-append k n [] = ground arith
has-append k n (m ∷ ns) = ground (arith, has-append k n ns)

Distinct-append :
    (n : String) (ns : List String) → has n ns ≡ false → Distinct ns → Distinct (ns ++ n ∷ [])
Distinct-append n [] h d = (refl, tt)
Distinct-append n (m ∷ ns) h d =
    ground
      (arith, has-append m n ns, Distinct-append n ns, string_eq.beq_iff m n, string_eq.beq_iff n m)

module _ (P : Pheromones) where
  pub record IsConsistent (m : UserCallbackMap P) : Type 0 where
    pub distinct : Distinct m.callback_names
    pub listed : (k : String) → has k m.callback_names ≡ is_set (lookup k m.callbacks)

  pub new_callback_map-IsConsistent : IsConsistent (new_callback_map P)
  unfolding lookup
  new_callback_map-IsConsistent = record { distinct = tt; listed = λ k. refl }

  -- Registration keeps a map consistent: every name is listed once, and the listed names are the
  -- keys.
  pub register_callback-IsConsistent :
      (m : UserCallbackMap P) (name : String) (f : CallbackFunction P) (a : CallbackArgsManifest P)
      → IsConsistent m
      → IsConsistent (register_callback P m name f a).0
  unfolding register_callback
  register_callback-IsConsistent m name f a c =
      elim (Bool-cases (is_set (lookup name m.callbacks))) [
        | inl old ↦ record {
          distinct = rw old c.distinct;
          listed = λ k.
              rw (old, lookup-insert name k _ m.callbacks)
                (ground (arith, c.listed k, string_eq.beq_iff name k));
        }
        | inr new ↦ record {
          distinct =
              rw new (Distinct-append name m.callback_names (c.listed name ∙ new) c.distinct);
          listed = λ k.
              rw (new, lookup-insert name k _ m.callbacks)
                (ground (arith, c.listed k, has-append k name m.callback_names));
        }
      ]
