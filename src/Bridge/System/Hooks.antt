-- ===== src/Bridge/System/Hooks.antt =====
-- The user's hooks in a run: `onConnect` and `onDisconnect`.
use hive_mind_bridge.Prelude.{ℕ, ◌+◌, ◌≤◌, ◌≡◌, false, List, arith}
use hive_mind_bridge.Pheromones.{Pheromones}
use hive_mind_bridge.Effect.{Effect}
use hive_mind_bridge.Effect.Calls.{calls}
use hive_mind_bridge.TcpServer.Hooks.{HasHooks, clients, LeavesHooks, Life-IsBalanced}
use hive_mind_bridge.Bridge.{Bridge}
use hive_mind_bridge.Bridge.System.{Run}
use hive_mind_bridge.Bridge.System.Invariant.{IsSound}
use hive_mind_bridge.Bridge.System.Lives.{AllowsAll, Run-Life}

module _ (P : Pheromones) (rand : ℕ → ℕ) where
  -- In every run of a sound bridge without a client, in which both hooks are set, to different
  -- functions, and stay so, the disconnect hook is called at most as often as the connect hook, and
  -- less often while there is a client.
  pub run_hooks :
      (c d : ℕ) {s u : Bridge P} {effects : List (Effect P)} (r : Run P rand s effects u)
      → AllowsAll P rand LeavesHooks r
      → IsSound P s
      → HasHooks c d s.tcp_server
      → s.tcp_server.is_connected ≡ false
      → calls P d effects + clients u.tcp_server ≤ calls P c effects
  run_hooks c d {s} {u} {effects} r leaves sound hooks down =
      let (_, balanced) =
        Life-IsBalanced P c d s.tcp_server u.tcp_server effects
          (Run-Life P rand LeavesHooks r leaves sound) hooks in
      let at_first : clients s.tcp_server ≡ 0 = rw down in omega arith
