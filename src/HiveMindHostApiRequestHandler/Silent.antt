-- ===== src/HiveMindHostApiRequestHandler/Silent.antt =====
-- What the handling of a request does to the outside: log lines and calls of the bytes callback.
use hive_mind_bridge.Prelude.{ℕ, ◌≡◌, refl, Bool, true, false, Option, none, some, All, arith}
use hive_mind_bridge.Pheromones.{Pheromones}
use hive_mind_bridge.Pheromones
use hive_mind_bridge.BytesAccumulator.{BytesAccumulator}
use hive_mind_bridge.Effect.Calls.{IsSilent}
use hive_mind_bridge.HiveMindHostApiRequestHandler.{
  HiveMindHostApiRequestHandler, finish_bytes, accept_bytes, handle_bytes, handle_message,
}

module _ (P : Pheromones) where
  finish_bytes-IsSilent :
      (h : HiveMindHostApiRequestHandler) (callback : ℕ) (b : P.BytesDto) (a : BytesAccumulator)
      (success : Bool)
      → All (IsSilent P) (finish_bytes P h callback b (a, success)).1
  unfolding finish_bytes
  finish_bytes-IsSilent h callback b a true = ground arith
  finish_bytes-IsSilent h callback b a false = (tt, tt)

  accept_bytes-IsSilent :
      (callback : Option ℕ) (h : HiveMindHostApiRequestHandler) (b : P.BytesDto)
      → All (IsSilent P) (accept_bytes P callback h b).1
  unfolding accept_bytes
  accept_bytes-IsSilent none h b = (tt, tt)
  accept_bytes-IsSilent (some callback) h b = finish_bytes-IsSilent _ callback b _ _

  pub handle_message-IsSilent :
      (h : HiveMindHostApiRequestHandler) (message : P.MessageDto)
      (request : P.HiveMindHostApiRequestDto)
      → All (IsSilent P) (handle_message P h message request).1
  unfolding handle_message handle_bytes
  handle_message-IsSilent h message request = go (P.host_api_request request) refl
    where
      go :
          (body : Pheromones.HiveMindHostApiRequestBody P.BytesDto P.GetNeighborRequestDto
            P.GetNeighborsListRequestDto)
          → P.host_api_request request ≡ body
          → All (IsSilent P) (handle_message P h message request).1
      go (Pheromones.HiveMindHostApiRequestBody.bytes b) e =
          rw (e, handle_message) (accept_bytes-IsSilent h.bytes_received_callback h b)
      go (Pheromones.HiveMindHostApiRequestBody.get_neighbor n) e = rw (e, handle_message) (tt, tt)
      go (Pheromones.HiveMindHostApiRequestBody.get_neighbors_list n) e =
          rw (e, handle_message) (tt, tt)
      go (Pheromones.HiveMindHostApiRequestBody.other n) e = rw (e, handle_message) (tt, tt)
