-- ===== src/Tests/Neighbors.antt =====
-- Requests about neighbors and their responses.
use hive_mind_bridge.Prelude.{◌≡◌, refl, true, some, [], ◌∷◌, value}
use hive_mind_bridge.Pheromones
use hive_mind_bridge.Effect.{neighbor_updated}
use hive_mind_bridge.Bridge.{Bridge}
use hive_mind_bridge.Bridge.Spin.{handle_front}
use hive_mind_bridge.Bridge.Requests.{
  on_neighbor_updated, send_neighbor_update_request, send_neighbor_list_update_request,
}
use hive_mind_bridge.Bridge.Requests.Neighbors.{Asks, neighbor_requests, neighbor_response}
use hive_mind_bridge.Tests.Sample.{sample, Message, ApiResponse}
use hive_mind_bridge.Tests.Transfers.{idle, fresh_request}
use hive_mind_bridge.Tests.Runs.{rand}

neighbor_requests_example :
    Asks sample rand idle
      (send_neighbor_update_request sample rand idle 3)
      (Pheromones.HiveMindHostApiRequestBody.get_neighbor 3)
    × Asks sample rand idle
        (send_neighbor_list_update_request sample rand idle)
        (Pheromones.HiveMindHostApiRequestBody.get_neighbors_list 0)
neighbor_requests_example = neighbor_requests sample rand idle 3

abbrev answer : ApiResponse → Message
answer body =
    (4, 4, Pheromones.MessageBody.response (10, Pheromones.ResponseBody.hive_mind_host_api body))

abbrev waiting : ApiResponse → Bridge sample
waiting body = record idle {
  inbound_queue = answer body ∷ [];
  outbound_queue = fresh_request 10 ∷ [];
}

abbrev about_three : ApiResponse
about_three = Pheromones.HiveMindHostApiResponseBody.get_neighbor (3, some (50, 90, true))

abbrev all_neighbors : ApiResponse
all_neighbors = Pheromones.HiveMindHostApiResponseBody.get_neighbors_list (3 ∷ 5 ∷ [])

neighbor_response_example :
    handle_front sample (on_neighbor_updated sample (waiting about_three) (some 1)).0
    ≡ value (
      record (on_neighbor_updated sample (waiting about_three) (some 1)).0 { inbound_queue = [] },
      neighbor_updated 1 3 (some (record { distance = 50; azimuth = 90; in_los = true })) ∷ [],
    )
neighbor_response_example =
    neighbor_response sample (waiting about_three) 1 (answer about_three) []
      (10, Pheromones.ResponseBody.hive_mind_host_api about_three) about_three refl refl refl
      (3, some (50, 90, true)) refl
