-- ===== src/Effect/Calls.antt =====
-- What to look for among effects: calls of a hook, and calls of the callback for bytes.
use hive_mind_bridge.Prelude.{
  ℕ, ◌+◌, ◌≡◌, ◌≢◌, refl, List, [], ◌∷◌, ◌++◌, All, All-map, arith, ◌==◌, if◌then◌else◌, nat_eq,
  beq_refl,
}
use hive_mind_bridge.Pheromones.{Pheromones}
use hive_mind_bridge.Effect.{
  Effect, logged, serialized, hook_called, bytes_received, neighbor_list_updated, neighbor_updated,
  shut_down, closed,
}

module _ (P : Pheromones) where
  -- The effect is no call of a connection hook, and neither shuts down nor closes a descriptor.
  abbrev pub IsSilent : Effect P → Type 0
  IsSilent (hook_called hook) = ⊥
  IsSilent (shut_down fd) = ⊥
  IsSilent (closed fd) = ⊥
  IsSilent _ = Unit

  unfoldable pub called_by : ℕ → Effect P → ℕ
  called_by k (hook_called hook) = if k == hook then 1 else 0
  called_by k _ = 0

  -- The number of calls of a hook.
  unfoldable pub calls : ℕ → List (Effect P) → ℕ
  unfolding called_by
  calls k [] = 0
  calls k (e ∷ es) = called_by k e + calls k es

  pub calls-append :
      (k : ℕ) (es fs : List (Effect P)) → calls k (es ++ fs) ≡ calls k es + calls k fs
  unfolding calls
  calls-append k [] fs = omega arith
  calls-append k (e ∷ es) fs = ground (arith, calls-append k es fs)

  called_by-IsSilent : (k : ℕ) (e : Effect P) → IsSilent e → called_by k e ≡ 0
  unfolding called_by
  called_by-IsSilent k (hook_called hook) h = absurd h
  called_by-IsSilent k (shut_down fd) h = absurd h
  called_by-IsSilent k (closed fd) h = absurd h
  called_by-IsSilent k (logged l t) h = refl
  called_by-IsSilent k (serialized m) h = refl
  called_by-IsSilent k (bytes_received c b n) h = refl
  called_by-IsSilent k (neighbor_list_updated c b n) h = refl
  called_by-IsSilent k (neighbor_updated c b n) h = refl

  pub calls-IsSilent : (k : ℕ) (es : List (Effect P)) → All IsSilent es → calls k es ≡ 0
  unfolding calls
  calls-IsSilent k [] h = refl
  calls-IsSilent k (e ∷ es) (first, rest) =
      omega (arith, called_by-IsSilent k e first, calls-IsSilent k es rest)

  pub calls_self : (k : ℕ) (es : List (Effect P)) → calls k (hook_called k ∷ es) ≡ 1 + calls k es
  unfolding calls
  calls_self k es = ground (arith, beq_refl k)

  pub calls_other :
      (k hook : ℕ) (es : List (Effect P)) → k ≢ hook → calls k (hook_called hook ∷ es) ≡ calls k es
  unfolding calls
  calls_other k hook es different = ground arith

  -- The effect is a log line or a message.
  abbrev pub IsPlain : Effect P → Type 0
  IsPlain (logged level text) = Unit
  IsPlain (serialized message) = Unit
  IsPlain _ = ⊥

  plain-IsSilent : (e : Effect P) → IsPlain e → IsSilent e
  plain-IsSilent (logged l t) h = tt
  plain-IsSilent (serialized m) h = tt
  plain-IsSilent (hook_called k) h = absurd h
  plain-IsSilent (shut_down fd) h = absurd h
  plain-IsSilent (closed fd) h = absurd h
  plain-IsSilent (bytes_received c b n) h = tt
  plain-IsSilent (neighbor_list_updated c b n) h = tt
  plain-IsSilent (neighbor_updated c b n) h = tt

  pub All-IsSilent : (es : List (Effect P)) → All IsPlain es → All IsSilent es
  All-IsSilent es h = All-map IsPlain IsSilent es plain-IsSilent h

  -- The calls of the callback for bytes.
  unfoldable pub delivered : List (Effect P) → List (Effect P)
  delivered [] = []
  delivered (bytes_received callback bytes n ∷ es) = bytes_received callback bytes n ∷ delivered es
  delivered (_ ∷ es) = delivered es

  pub delivered-append :
      (es fs : List (Effect P)) → delivered (es ++ fs) ≡ delivered es ++ delivered fs
  unfolding delivered
  delivered-append [] fs = refl
  delivered-append (e ∷ es) fs = ground (arith, delivered-append es fs)

  pub delivered-IsPlain : (es : List (Effect P)) → All IsPlain es → delivered es ≡ []
  unfolding delivered
  delivered-IsPlain [] h = refl
  delivered-IsPlain (logged l t ∷ es) (first, rest) = delivered-IsPlain es rest
  delivered-IsPlain (serialized m ∷ es) (first, rest) = delivered-IsPlain es rest
  delivered-IsPlain (hook_called k ∷ es) (first, rest) = absurd first
  delivered-IsPlain (shut_down fd ∷ es) (first, rest) = absurd first
  delivered-IsPlain (closed fd ∷ es) (first, rest) = absurd first
  delivered-IsPlain (bytes_received c b n ∷ es) (first, rest) = absurd first
  delivered-IsPlain (neighbor_list_updated c b n ∷ es) (first, rest) = absurd first
  delivered-IsPlain (neighbor_updated c b n ∷ es) (first, rest) = absurd first
