-- ===== src/UserCallbackMap/Discovery.antt =====
-- What a client learns that asks for the length and then for the manifest and the name of every index, as the
-- requests of src/user-call/UserCallRequestHandler.cpp let another agent do.
use hive_mind_bridge.Prelude.{
  ℕ, zero, suc, ◌+◌, ◌<◌, ◌^◌, ◌≡◌, refl, sym, ap, ◌∙◌, String, Option, some, List, [], ◌∷◌, ◌++◌,
  map, append_assoc, Dict, length, get_elem?, Access, value, ◌>>=◌, arith,
}
use native.Mathlib.Nat.{mod-eq_of_lt}
use hive_mind_bridge.Pheromones.{Pheromones}
use hive_mind_bridge.Callback.{CallbackArgsManifest, UserCallbackFunctionWrapper}
use hive_mind_bridge.UserCallbackMap.{UserCallbackMap, get_length}
use hive_mind_bridge.UserCallbackMap.Contract.{IUserCallbackMap, user_callback_map}
use hive_mind_bridge.UserCallbackMap.Registry.{registry}
use hive_mind_bridge.UserCallbackMap.Invariant.{IsConsistent}

get_elem?-front {ℓ} :
    {A : Type ℓ} (xs : List A) (y : A) (ys : List A) → get_elem? (xs ++ y ∷ ys) (length xs) ≡ some y
get_elem?-front [] y ys = refl
get_elem?-front (x ∷ xs) y ys = get_elem?-front xs y ys

length-snoc {ℓ} : {A : Type ℓ} (xs : List A) (y : A) → length (xs ++ y ∷ []) ≡ length xs + 1
length-snoc [] y = omega arith
length-snoc (x ∷ xs) y = omega (arith, length-snoc xs y)

module _ (P : Pheromones) where
  -- The description of an entry.
  abbrev pub Description : Type 0
  Description = Option String × Option (CallbackArgsManifest P)

  abbrev pub describe : String × UserCallbackFunctionWrapper P → Description
  describe (name, w) = (some name, some w.manifest)

  module _ {Map : Type 0} {IsValid : Map → Type 0} (I : IUserCallbackMap P Map IsValid) where
    -- The descriptions of the indices from `index` on, with `rounds` to go.
    unfoldable pub read : (rounds index : ℕ) → Map → Access (Map × List Description)
    read zero index m = value (m, [])
    read (suc rounds) index m = do
      (m', manifest) ← I.get_manifest_at m index
      name ← I.get_name_at m' index
      (m'', rest) ← read rounds (index + 1) m'
      value (m'', (name, manifest) ∷ rest)

    read-rest :
        (m : Map) (seen rest : Dict String (UserCallbackFunctionWrapper P))
        → IsValid m
        → I.contents m ≡ seen ++ rest
        → read (length rest) (length seen) m ≡ value (m, map describe rest)
    unfolding read
    read-rest m seen [] valid e = refl
    read-rest m seen ((name, w) ∷ rest) valid e =
        let (named, described) =
          I.get_at_lem m (length seen) name w valid
            (ap (λ d. get_elem? d (length seen)) e ∙ get_elem?-front seen (name, w) rest) in
        let later =
          read-rest m (seen ++ (name, w) ∷ []) rest valid
            (e ∙ sym (append_assoc seen ((name, w) ∷ []) rest)) in
        rw (described, read) (rw (named, read) (rw (← length-snoc seen (name, w), later) refl))

    read-contents :
        (m : Map)
        → IsValid m
        → length (I.contents m) < 2 ^ 32
        → read (I.get_length m) 0 m ≡ value (m, map describe (I.contents m))
    read-contents m valid few =
        rw (I.get_length_lem m, mod-eq_of_lt few) (read-rest m [] (I.contents m) valid refl)

  -- On a consistent map with fewer than 2 ^ 32 functions, a client that asks for the length and then
  -- for manifest and name of every index below it learns the registry: each function once, in the order
  -- of the first registrations, with the manifest that was registered last. It meets no access past the
  -- end, and the map is left as it was.
  pub discovers :
      (m : UserCallbackMap P)
      → IsConsistent P m
      → length (registry P m) < 2 ^ 32
      → read (user_callback_map P) (get_length P m) 0 m ≡ value (m, map describe (registry P m))
  unfolding user_callback_map
  discovers m c few = read-contents (user_callback_map P) m c few
