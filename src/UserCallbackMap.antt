-- ===== src/UserCallbackMap.antt =====
-- src/user-call/UserCallbackMap.cpp: the registered functions by name, and their names by index.
pub mod Invariant
pub mod Registry
pub mod Contract
pub mod Discovery
use hive_mind_bridge.Prelude.{
  ℕ, ◌+◌, ◌%◌, ◌^◌, String, Bool, true, false, Option, none, some, List, [], ◌∷◌, ◌++◌, Dict,
  lookup, insert, ltb, if◌then◌else◌, length, get_elem?, is_set, string_eq, Access, value, at,
  ◌>>=◌,
}
use hive_mind_bridge.Pheromones.{Pheromones}
use hive_mind_bridge.Callback.{
  CallbackFunction, CallbackArgsManifest, UserCallbackFunctionWrapper, threw_exception,
}

module _ (P : Pheromones) where
  pub record UserCallbackMap : Type 0 where
    pub callbacks : Dict String (UserCallbackFunctionWrapper P)
    pub callback_names : List String

  abbrev pub new_callback_map : UserCallbackMap
  new_callback_map = record { callbacks = []; callback_names = [] }

  unfoldable pub register_callback :
      UserCallbackMap
      → (name : String) → CallbackFunction P
      → CallbackArgsManifest P
      → UserCallbackMap × Bool
  register_callback m name callback manifest =
      let overwriting = is_set (lookup name m.callbacks) in
      (
        record {
          callbacks = insert name (record { function = callback; manifest = manifest }) m.callbacks;
          callback_names = if overwriting then m.callback_names else m.callback_names ++ name ∷ [];
        },
        overwriting,
      )

  -- The overload without a manifest.
  unfoldable pub register_callback_without_manifest :
      UserCallbackMap → (name : String) → CallbackFunction P → UserCallbackMap × Bool
  unfolding register_callback
  register_callback_without_manifest m name callback = register_callback m name callback []

  unfoldable pub get_callback : UserCallbackMap → (name : String) → Option (CallbackFunction P)
  get_callback m name = elim (lookup name m.callbacks) [
    | none ↦ none
    | some callback ↦ some callback.function
  ]

  -- `size_t` to `uint32_t`
  unfoldable pub get_length : UserCallbackMap → ℕ
  get_length m = length m.callback_names % 2 ^ 32

  -- A default-constructed wrapper holds an empty function.
  abbrev pub empty_wrapper : UserCallbackFunctionWrapper P
  empty_wrapper = record { function = λ args. threw_exception; manifest = [] }

  -- `m_callbacks[name]`, which makes an empty wrapper where the name is not a key.
  unfoldable pub wrapper_at :
      UserCallbackMap → (name : String) → UserCallbackMap × UserCallbackFunctionWrapper P
  wrapper_at m name = elim (lookup name m.callbacks) [
    | none ↦ (record m { callbacks = insert name empty_wrapper m.callbacks }, empty_wrapper)
    | some callback ↦ (m, callback)
  ]

  unfoldable pub get_manifest_at :
      UserCallbackMap → (index : ℕ) → Access (UserCallbackMap × Option (CallbackArgsManifest P))
  unfolding wrapper_at
  get_manifest_at m index = if ltb (length m.callback_names) index then value (m, none) else do
    name ← at m.callback_names index
    value ((wrapper_at m name).0, some (wrapper_at m name).1.manifest)

  unfoldable pub get_name_at : UserCallbackMap → (index : ℕ) → Access (Option String)
  get_name_at m index =
      if ltb (length m.callback_names) index
      then value none
      else do name ← at m.callback_names index; value (some name)
