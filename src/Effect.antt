-- ===== src/Effect.antt =====
-- What the bridge does to the outside, in order: log lines, messages that go to the serializer, calls
-- of the functions that the user registered, and the descriptors that it shuts down and closes. A registered function is known by a number.
pub mod Calls
use hive_mind_bridge.Prelude.{ℕ, Bool, Option, List, String}
use hive_mind_bridge.Pheromones.{Pheromones}

pub data LogLevel : Type 0 where
  debug info warn error : LogLevel

-- include/hivemind-bridge/IHiveMindHostApiResponseHandler.h
pub record Position (P : Pheromones) : Type 0 where
  pub distance : P.Float
  pub azimuth : P.Float
  pub in_los : Bool

-- A descriptor as `close` meets it: a member that was never set, the answer -1, or an open one.
pub data Descriptor : Type 0 where
  indeterminate : Descriptor
  invalid : Descriptor
  descriptor : ℕ → Descriptor

-- Of a log line the level and the text are kept, not the formatted values.
pub data Effect (P : Pheromones) : Type 0 where
  logged : LogLevel → String → Effect P
  serialized : P.MessageDto → Effect P
  hook_called : (hook : ℕ) → Effect P
  bytes_received : (callback : ℕ) → (bytes : List ℕ) → (bytes_length : ℕ) → Effect P
  neighbor_list_updated : (callback : ℕ) → (neighbors : List ℕ) → (bytes_length : ℕ) → Effect P
  neighbor_updated : (callback : ℕ) → (neighbor_id : ℕ) → Option (Position P) → Effect P
  shut_down : (fd : Descriptor) → Effect P
  closed : (fd : Descriptor) → Effect P
