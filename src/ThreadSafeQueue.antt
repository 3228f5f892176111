-- ===== src/ThreadSafeQueue.antt =====
-- include/hivemind-bridge/ThreadSafeQueue.h: a queue whose operations each hold the mutex, so that a
-- program sees them one after the other. The oldest item is the head of the list.
pub mod Contract
pub mod Interleaving
use hive_mind_bridge.Prelude.{
  ℕ, Bool, true, false, List, [], ◌∷◌, ◌++◌, length, Access, value, undefined_behaviour,
}

module _ {ℓ} {T : Type ℓ} where
  unfoldable pub push : List T → T → List T
  push q item = q ++ item ∷ []

  -- `pop`, `front` and `back` of an empty `std::queue` are undefined.
  unfoldable pub pop : List T → Access (List T)
  pop [] = undefined_behaviour
  pop (x ∷ q) = value q

  unfoldable pub front : List T → Access T
  front [] = undefined_behaviour
  front (x ∷ q) = value x

  unfoldable pub back : List T → Access T
  back [] = undefined_behaviour
  back (x ∷ []) = value x
  back (x ∷ y ∷ q) = back (y ∷ q)

  unfoldable pub size : List T → ℕ
  size = length

  unfoldable pub empty : List T → Bool
  empty [] = true
  empty (x ∷ q) = false
