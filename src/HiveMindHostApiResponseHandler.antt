-- ===== src/HiveMindHostApiResponseHandler.antt =====
-- src/HiveMindHostApiResponseHandler.cpp: answers of the HiveBoard about neighbors go to the user's
-- callbacks.
pub mod Silent
use hive_mind_bridge.Prelude.{ℕ, Bool, Option, none, some, List, [], ◌∷◌, is_set}
use hive_mind_bridge.Pheromones.{Pheromones}
use hive_mind_bridge.Pheromones
use hive_mind_bridge.Effect.{
  Effect, logged, neighbor_list_updated, neighbor_updated, warn, Position,
}

pub record HiveMindHostApiResponseHandler : Type 0 where
  pub neighbor_list_update_callback : Option ℕ
  pub neighbor_update_callback : Option ℕ

abbrev pub new_response_handler : HiveMindHostApiResponseHandler
new_response_handler = record {
  neighbor_list_update_callback = none;
  neighbor_update_callback = none;
}

unfoldable pub on_neighbor_list_updated :
    HiveMindHostApiResponseHandler → (callback : Option ℕ) → HiveMindHostApiResponseHandler × Bool
on_neighbor_list_updated h callback =
    (record h { neighbor_list_update_callback = callback }, is_set h.neighbor_list_update_callback)

unfoldable pub on_neighbor_updated :
    HiveMindHostApiResponseHandler → (callback : Option ℕ) → HiveMindHostApiResponseHandler × Bool
on_neighbor_updated h callback =
    (record h { neighbor_update_callback = callback }, is_set h.neighbor_update_callback)

module _ (P : Pheromones) where
  open P use {
    MessageDto, HiveMindHostApiResponseDto, GetNeighborsListResponseDto, GetNeighborResponseDto,
    NeighborPositionDto, host_api_response, get_neighbors, get_neighbors_length, get_neighbor_id,
    get_neighbor_position, get_distance, get_azimuth, in_los,
  }

  unfoldable pub handle_neighbor_list :
      HiveMindHostApiResponseHandler → GetNeighborsListResponseDto → List (Effect P)
  handle_neighbor_list h list = elim h.neighbor_list_update_callback [
    | none ↦ logged warn "No callback was defined to handle incoming GetNeighborsListResponse." ∷ []
    | some callback ↦
        neighbor_list_updated callback (get_neighbors list) (get_neighbors_length list) ∷ []
  ]

  abbrev pub position : NeighborPositionDto → Position P
  position p = record { distance = get_distance p; azimuth = get_azimuth p; in_los = in_los p }

  unfoldable pub handle_neighbor :
      HiveMindHostApiResponseHandler → GetNeighborResponseDto → List (Effect P)
  handle_neighbor h neighbor = elim h.neighbor_update_callback [
    | none ↦ logged warn "No callback was defined to handle incoming GetNeighborResponse." ∷ []
    | some callback ↦ elim (get_neighbor_position neighbor) [
      | some p ↦ neighbor_updated callback (get_neighbor_id neighbor) (some (position p)) ∷ []
      | none ↦ neighbor_updated callback (get_neighbor_id neighbor) none ∷ []
    ]
  ]

  -- The handler's state does not change.
  unfoldable pub handle_message :
      HiveMindHostApiResponseHandler → MessageDto → HiveMindHostApiResponseDto → List (Effect P)
  unfolding handle_neighbor_list handle_neighbor
  handle_message h message response = elim (host_api_response response) [
    | Pheromones.HiveMindHostApiResponseBody.get_neighbors_list list ↦ handle_neighbor_list h list
    | Pheromones.HiveMindHostApiResponseBody.get_neighbor neighbor ↦ handle_neighbor h neighbor
    | _ ↦ logged warn "Unsupported HiveMindHostApi response." ∷ []
  ]
