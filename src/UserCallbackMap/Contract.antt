-- ===== src/UserCallbackMap/Contract.antt =====
-- include/hivemind-bridge/IUserCallbackMap.h: the operations of the map, and what they promise of the registry, one
-- entry to a name in the order of the first registrations.
use hive_mind_bridge.Prelude.{
  ℕ, ◌%◌, ◌^◌, ◌≡◌, refl, sym, ap, ◌∙◌, String, Bool, Option, none, some, List, [], ◌∷◌, Dict,
  lookup, insert, is_set, length, get_elem?, get_elem?_past, lt-eq-gt, inl, inr, Access, value,
  string_eq, arith,
}
use mathlib.Core.Option.{none-ne-some, some-injective}
use hive_mind_bridge.Pheromones.{Pheromones}
use hive_mind_bridge.Callback.{CallbackFunction, CallbackArgsManifest, UserCallbackFunctionWrapper}
use hive_mind_bridge.UserCallbackMap
use hive_mind_bridge.UserCallbackMap.{UserCallbackMap}
use hive_mind_bridge.UserCallbackMap.Invariant.{IsConsistent, register_callback-IsConsistent}
use hive_mind_bridge.UserCallbackMap.Registry.{
  registry, entries, register_callback-registry, get_callback-registry, get_at-registry,
  lookup-entries,
}

module _ (P : Pheromones) where
  pub record IUserCallbackMap (Map : Type 0) (IsValid : Map → Type 0) : Type 0 where
    pub register_callback :
        Map → (name : String) → CallbackFunction P → CallbackArgsManifest P → Map × Bool
    pub register_callback_without_manifest : Map → (name : String) → CallbackFunction P → Map × Bool
    pub get_callback : Map → (name : String) → Option (CallbackFunction P)
    pub get_length : Map → ℕ
    pub get_manifest_at : Map → (index : ℕ) → Access (Map × Option (CallbackArgsManifest P))
    pub get_name_at : Map → (index : ℕ) → Access (Option String)
    pub contents : Map → Dict String (UserCallbackFunctionWrapper P)
    pub register_callback_lem :
        (m : Map) (name : String) (f : CallbackFunction P) (a : CallbackArgsManifest P)
        → IsValid m
        → let (m', overwritten) = register_callback m name f a in
          IsValid m'
          × (contents m' ≡ insert name (record { function = f; manifest = a }) (contents m))
          × (overwritten ≡ is_set (lookup name (contents m)))
    pub without_manifest_lem :
        (m : Map) (name : String) (f : CallbackFunction P)
        → register_callback_without_manifest m name f ≡ register_callback m name f []
    pub get_callback_lem :
        (m : Map) (name : String)
        → IsValid m
        → get_callback m name
          ≡ (elim (lookup name (contents m)) [ none ↦ none | some w ↦ some w.function ])
    pub get_length_lem : (m : Map) → get_length m ≡ length (contents m) % 2 ^ 32
    pub get_at_lem :
        (m : Map) (index : ℕ) (name : String) (w : UserCallbackFunctionWrapper P)
        → IsValid m
        → get_elem? (contents m) index ≡ some (name, w)
        → (get_name_at m index ≡ value (some name))
          × (get_manifest_at m index ≡ value (m, some w.manifest))

  length-entries :
      (d : Dict String (UserCallbackFunctionWrapper P)) (ns : List String)
      → length (entries P d ns) ≡ length ns
  length-entries d [] = refl
  length-entries d (n ∷ ns) = omega (arith, length-entries d ns)

  registered :
      (m : UserCallbackMap P) (name : String) (f : CallbackFunction P) (a : CallbackArgsManifest P)
      → IsConsistent P m
      → let (m', overwritten) = UserCallbackMap.register_callback P m name f a in
        IsConsistent P m'
        × (registry P m' ≡ insert name (record { function = f; manifest = a }) (registry P m))
        × (overwritten ≡ is_set (lookup name (registry P m)))
  registered m name f a c =
      let (inserted, said) = register_callback-registry P m name f a c in
      (
        register_callback-IsConsistent P m name f a c,
        inserted,
        said ∙ ground (arith, lookup-entries P m.callbacks name m.callback_names),
      )

  found :
      (m : UserCallbackMap P) (index : ℕ) (name : String) (w : UserCallbackFunctionWrapper P)
      → IsConsistent P m
      → get_elem? (registry P m) index ≡ some (name, w)
      → (UserCallbackMap.get_name_at P m index ≡ value (some name))
        × (UserCallbackMap.get_manifest_at P m index ≡ value (m, some w.manifest))
  found m index name w c e = elim (lt-eq-gt index (length (registry P m))) [
    | inl below ↦
        let (name', w', entry, named, described) =
          get_at-registry P m index c
            (omega (arith, length-entries m.callbacks m.callback_names)) in
        let same = some-injective (name', w') (name, w) (sym entry ∙ e) in
        (
          named ∙ ap (λ x. value (some x.0)) same,
          described ∙ ap (λ x. value (m, some x.1.manifest)) same,
        )
    | inr above ↦
        let missing =
          get_elem?_past (registry P m) index
            (elim above [ inl eq ↦ omega arith | inr lt ↦ omega arith ]) in
        absurd (none-ne-some (name, w) (sym missing ∙ e))
  ]

  -- The map of the bridge keeps the promises while it is consistent.
  unfoldable pub user_callback_map : IUserCallbackMap (UserCallbackMap P) (IsConsistent P)
  unfolding UserCallbackMap.register_callback_without_manifest UserCallbackMap.get_length
      length-entries registered found
  user_callback_map = record {
    register_callback = UserCallbackMap.register_callback P;
    register_callback_without_manifest = UserCallbackMap.register_callback_without_manifest P;
    get_callback = UserCallbackMap.get_callback P;
    get_length = UserCallbackMap.get_length P;
    get_manifest_at = UserCallbackMap.get_manifest_at P;
    get_name_at = UserCallbackMap.get_name_at P;
    contents = registry P;
    register_callback_lem = registered;
    without_manifest_lem = λ m name f. refl;
    get_callback_lem = get_callback-registry P;
    get_length_lem = λ m. ap (λ n. n % 2 ^ 32) (sym (length-entries m.callbacks m.callback_names));
    get_at_lem = found;
  }
