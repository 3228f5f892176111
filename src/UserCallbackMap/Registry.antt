-- ===== src/UserCallbackMap/Registry.antt =====
-- A `UserCallbackMap` as what its users see: the registered functions, one entry to a name, in the
-- order in which the names were first registered.
use hive_mind_bridge.Prelude.{
  ℕ, suc, zero, ◌<◌, ◌≤◌, ◌≡◌, refl, sym, ◌∙◌, String, true, false, none, some, List, [], ◌∷◌, ◌++◌,
  arith, Dict, lookup, insert, lookup-insert, string_eq, Bool-cases, lt-eq-gt, ◌⊎◌, inl, inr,
  is_set, if◌then◌else◌, beq_refl, length, get_elem?, get_elem?_past, value, undefined_behaviour,
}
use hive_mind_bridge.Pheromones.{Pheromones}
use hive_mind_bridge.Callback.{CallbackFunction, CallbackArgsManifest, UserCallbackFunctionWrapper}
use hive_mind_bridge.UserCallbackMap.{
  UserCallbackMap, register_callback, get_callback, get_manifest_at, get_name_at, empty_wrapper,
}
use hive_mind_bridge.UserCallbackMap.Invariant.{has, Distinct, IsConsistent}

module _ (P : Pheromones) where
  abbrev pub wrapper :
      Dict String (UserCallbackFunctionWrapper P) → String → UserCallbackFunctionWrapper P
  wrapper d name = elim (lookup name d) [ none ↦ empty_wrapper P | some w ↦ w ]

  abbrev pub entries :
      Dict String (UserCallbackFunctionWrapper P)
      → List String
      → Dict String (UserCallbackFunctionWrapper P)
  entries d [] = []
  entries d (n ∷ ns) = (n, wrapper d n) ∷ entries d ns

  abbrev pub registry : UserCallbackMap P → Dict String (UserCallbackFunctionWrapper P)
  registry m = entries m.callbacks m.callback_names

  module _ (d : Dict String (UserCallbackFunctionWrapper P)) (name : String)
      (w : UserCallbackFunctionWrapper P) where
    wrapper-insert :
        (k : String)
        → wrapper (insert name w d) k ≡ (if string_eq.beq name k then w else wrapper d k)
    wrapper-insert k = ground (arith, lookup-insert name k w d)

    -- A name that is not listed changes no entry.
    entries-insert_absent :
        (ns : List String) → has name ns ≡ false → entries (insert name w d) ns ≡ entries d ns
    entries-insert_absent [] h = refl
    entries-insert_absent (n ∷ ns) h = ground (
      arith,
      entries-insert_absent ns,
      wrapper-insert n,
      string_eq.beq_iff name n,
      string_eq.beq_iff n name,
    )

    entries-insert_listed :
        (ns : List String)
        → has name ns ≡ true
        → Distinct ns
        → entries (insert name w d) ns ≡ insert name w (entries d ns)
    unfolding insert
    entries-insert_listed [] h u = cc
    entries-insert_listed (n ∷ ns) h u = ground (
      arith,
      entries-insert_listed ns,
      entries-insert_absent ns,
      wrapper-insert n,
      string_eq.beq_iff n name,
      string_eq.beq_iff name n,
    )

    entries-append :
        (ns : List String)
        → has name ns ≡ false
        → entries (insert name w d) (ns ++ name ∷ []) ≡ insert name w (entries d ns)
    unfolding insert
    entries-append [] h = ground (arith, wrapper-insert name, beq_refl name)
    entries-append (n ∷ ns) h = ground (
      arith,
      entries-append ns,
      wrapper-insert n,
      string_eq.beq_iff n name,
      string_eq.beq_iff name n,
    )

  -- On a consistent map, registration is an insertion into the registry: a new name goes to the
  -- end, and a known name keeps its place and gets the new function and manifest. The result says
  -- which it was.
  pub register_callback-registry :
      (m : UserCallbackMap P) (name : String) (f : CallbackFunction P) (a : CallbackArgsManifest P)
      → IsConsistent P m
      → let (m', overwriting) = register_callback P m name f a in
        (registry m' ≡ insert name (record { function = f; manifest = a }) (registry m))
        × (overwriting ≡ has name m.callback_names)
  unfolding register_callback
  register_callback-registry m name f a c = elim (Bool-cases (is_set (lookup name m.callbacks))) [
    | inl old ↦ rw old (
      entries-insert_listed m.callbacks name _ m.callback_names (c.listed name ∙ old) c.distinct,
      sym (c.listed name ∙ old),
    )
    | inr new ↦ rw new (
      entries-append m.callbacks name _ m.callback_names (c.listed name ∙ new),
      sym (c.listed name ∙ new),
    )
  ]

  pub lookup-entries :
      (d : Dict String (UserCallbackFunctionWrapper P)) (k : String) (ns : List String)
      → lookup k (entries d ns) ≡ (if has k ns then some (wrapper d k) else none)
  unfolding lookup
  lookup-entries d k [] = refl
  lookup-entries d k (n ∷ ns) = ground (arith, lookup-entries d k ns, string_eq.beq_iff n k)

  -- On a consistent map, a callback is found by name exactly as in the registry.
  pub get_callback-registry :
      (m : UserCallbackMap P) (name : String)
      → IsConsistent P m
      → get_callback P m name
        ≡ (elim (lookup name (registry m)) [ none ↦ none | some w ↦ some w.function ])
  unfolding get_callback
  get_callback-registry m name c =
      ground (arith, lookup-entries m.callbacks name m.callback_names, c.listed name)

  -- After a registration the name has the new function, and every other name has what it had.
  pub get_callback-register :
      (m : UserCallbackMap P) (name k : String) (f : CallbackFunction P)
      (a : CallbackArgsManifest P)
      → get_callback P (register_callback P m name f a).0 k
        ≡ (if string_eq.beq name k then some f else get_callback P m k)
  unfolding get_callback register_callback
  get_callback-register m name k f a =
      ground (arith, lookup-insert name k (record { function = f; manifest = a }) m.callbacks)

  has-get_elem? :
      (ns : List String) (i : ℕ) (n : String) → get_elem? ns i ≡ some n → has n ns ≡ true
  has-get_elem? [] i n h = cc
  has-get_elem? (m ∷ ns) zero n h = ground (arith, beq_refl n)
  has-get_elem? (m ∷ ns) (suc i) n h = ground (arith, has-get_elem? ns i n h)

  get_elem?-entries :
      (d : Dict String (UserCallbackFunctionWrapper P)) (ns : List String) (i : ℕ)
      → i < length ns
      → (n : String) × (get_elem? ns i ≡ some n)
        × (get_elem? (entries d ns) i ≡ some (n, wrapper d n))
  get_elem?-entries d [] i h = elim h [ ]
  get_elem?-entries d (n ∷ ns) zero h = (n, refl, refl)
  get_elem?-entries d (n ∷ ns) (suc i) h = get_elem?-entries d ns i (omega arith)

  -- On a consistent map and below its length, name and manifest of an index are those of the
  -- registry's entry there, and the lookup of the manifest leaves the map alone.
  pub get_at-registry :
      (m : UserCallbackMap P) (i : ℕ)
      → IsConsistent P m
      → i < length m.callback_names
      → (name : String) × (w : UserCallbackFunctionWrapper P) × (get_elem? (registry m) i
          ≡ some (name, w))
        × (get_name_at P m i ≡ value (some name))
        × (get_manifest_at P m i ≡ value (m, some w.manifest))
  unfolding get_name_at get_manifest_at
  get_at-registry m i c h =
      let (n, here, entry) = get_elem?-entries m.callbacks m.callback_names i h in
      let known = has-get_elem? m.callback_names i n here in
      (n, wrapper m.callbacks n, entry, ground arith, ground (arith, c.listed n))

  -- From the length on there is no entry. Past the length both calls return nothing; at the length
  -- itself, which the code's test lets through, both read past the end of the vector.
  pub get_at_past :
      (m : UserCallbackMap P) (i : ℕ)
      → length m.callback_names ≤ i
      → ((length m.callback_names < i)
          × (get_name_at P m i ≡ value none)
          × (get_manifest_at P m i ≡ value (m, none)))
        ⊎ ((i ≡ length m.callback_names)
            × (get_name_at P m i ≡ undefined_behaviour)
            × (get_manifest_at P m i ≡ undefined_behaviour))
  unfolding get_name_at get_manifest_at
  get_at_past m i h = elim (lt-eq-gt i (length m.callback_names)) [
    | inl below ↦ absurd (omega arith)
    | inr (inl e) ↦ inr (
      e,
      ground (arith, get_elem?_past m.callback_names i h),
      ground (arith, get_elem?_past m.callback_names i h),
    )
    | inr (inr above) ↦ inl (above, ground arith, ground arith)
  ]
