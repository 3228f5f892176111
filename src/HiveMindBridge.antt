-- ===== src/HiveMindBridge.antt =====
-- src/HiveMindBridge.cpp: the whole bridge, from its construction to its destruction.
pub mod Interface
pub mod Answers
pub mod Ending
pub mod Lifetime
pub mod Descriptors
use hive_mind_bridge.Prelude.{
  ℕ, Bool, false, Option, List, [], ◌∷◌, ◌++◌, if◌then◌else◌, interleave,
}
use hive_mind_bridge.Pheromones.{Pheromones}
use hive_mind_bridge.Effect.{Effect, closed}
use hive_mind_bridge.TcpServer.{init, close, lose_if}
use hive_mind_bridge.Bridge.{Bridge, new_bridge}

module _ (P : Pheromones) where
  -- The constructor, on the answers of `socket`, `setsockopt` and `bind`.
  unfoldable pub new_hive_mind_bridge :
      (tcp_port : ℕ)
      → (server_fd : Option ℕ) → (set_option bound : Bool) → (keep_alive_nb_spin : ℕ)
      → Bridge P × List (Effect P)
  new_hive_mind_bridge tcp_port server_fd set_option bound n =
      let (server, effects) = init P tcp_port server_fd set_option bound in
      (new_bridge P server n, effects)

  -- Whether the inbound thread is in `recv` when the server is closed, so that `recv` gives 0 bytes:
  -- a thread that was started reads while there is a client, and `woken` says that it waits there.
  abbrev pub in_receive : Bridge P → (woken : Bool) → Bool
  in_receive s woken =
      if s.tcp_server.is_connected then (if s.inbound_thread then woken else false) else false

  -- The thread ends after the first effect of the closing, which wakes it.
  abbrev pub overlap : (schedule : List Bool) → (closing ending : List (Effect P)) → List (Effect P)
  overlap schedule [] ending = ending
  overlap schedule (first ∷ rest) ending = first ∷ interleave schedule rest ending

  -- `~HiveMindBridgeImpl`: the server is closed, so that the loops of the threads end, and then both
  -- threads are joined. The inbound thread may be in `recv`, which `shutdown` ends; its last effects
  -- come among those of the closing, as the schedule has it.
  unfoldable pub destroy_bridge :
      Bridge P → (woken : Bool) → (schedule : List Bool) → Bridge P × List (Effect P)
  unfolding close lose_if
  destroy_bridge s woken schedule =
      let (server, closing) = close P s.tcp_server in
      let (server', ending) = lose_if P (in_receive s woken) server in
      (
        record s { tcp_server = server'; inbound_thread = false; outbound_thread = false },
        overlap schedule closing ending,
      )

  -- `~TCPServer`
  unfoldable pub destroy_server : Bridge P → Bridge P × List (Effect P)
  unfolding close
  destroy_server s =
      let (server, effects) = close P s.tcp_server in
      (record s { tcp_server = server }, effects ++ closed server.server_fd ∷ [])

  -- `~HiveMindBridge`, which destroys the members in reverse order: the server after the bridge.
  unfoldable pub destroy :
      Bridge P → (woken : Bool) → (schedule : List Bool) → Bridge P × List (Effect P)
  unfolding destroy_bridge destroy_server
  destroy s woken schedule =
      let (s', closing) = destroy_bridge s woken schedule in
      let (s'', closing_again) = destroy_server s' in (s'', closing ++ closing_again)
