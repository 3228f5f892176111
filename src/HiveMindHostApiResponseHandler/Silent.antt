-- ===== src/HiveMindHostApiResponseHandler/Silent.antt =====
-- What the handling of a response does to the outside: log lines and calls of the neighbor callbacks.
use hive_mind_bridge.Prelude.{All, arith}
use hive_mind_bridge.Pheromones.{Pheromones}
use hive_mind_bridge.Effect.Calls.{IsSilent}
use hive_mind_bridge.HiveMindHostApiResponseHandler.{
  HiveMindHostApiResponseHandler, handle_neighbor_list, handle_neighbor, handle_message,
}

module _ (P : Pheromones) where
  pub handle_message-IsSilent :
      (h : HiveMindHostApiResponseHandler) (message : P.MessageDto)
      (response : P.HiveMindHostApiResponseDto)
      → All (IsSilent P) (handle_message P h message response)
  unfolding handle_message handle_neighbor handle_neighbor_list
  handle_message-IsSilent h message response = ground arith
