-- ===== src/HiveMindBridge/Descriptors.antt =====
-- The descriptor of the client, from the construction of a bridge to its destruction.
use hive_mind_bridge.Prelude.{
  ℕ, false, ◌≡◌, refl, ap, Bool, Option, List, [], ◌∷◌, ◌++◌, ◌∙◌, interleave-nil,
}
use hive_mind_bridge.Pheromones.{Pheromones}
use hive_mind_bridge.Effect.{Effect, indeterminate, logged, warn, shut_down, closed}
use hive_mind_bridge.TcpServer.{init}
use hive_mind_bridge.TcpServer.Life.{Life-client_fd, Life-down}
use hive_mind_bridge.Bridge.{Bridge, new_bridge}
use hive_mind_bridge.Bridge.System.{Run}
use hive_mind_bridge.Bridge.System.Lives.{AllowsAll, Run-Life}
use hive_mind_bridge.Bridge.System.Attached.{NeverListens, IsAttached, last_accept, Run-IsAttached}
use hive_mind_bridge.Bridge.System.Invariant.{IsSound}
use hive_mind_bridge.HiveMindBridge.{new_hive_mind_bridge, destroy, in_receive}
use hive_mind_bridge.HiveMindBridge.Ending.{destroy_lem, ends_of, again, rest}
use hive_mind_bridge.HiveMindBridge.Lifetime.{new_hive_mind_bridge-IsSound}

module _ (P : Pheromones) (rand : ℕ → ℕ) (tcp_port : ℕ) (server_fd : Option ℕ)
    (set_option bound : Bool) (n : ℕ) where
  abbrev pub made : Bridge P
  made = (new_hive_mind_bridge P tcp_port server_fd set_option bound n).0

  made_lem : (made.tcp_server.is_connected ≡ false) × (made.tcp_server.client_fd ≡ indeterminate)
  unfolding new_hive_mind_bridge init new_bridge
  made_lem = (refl, refl)

  sound : IsSound P made
  sound = new_hive_mind_bridge-IsSound P tcp_port server_fd set_option bound n

  module _ {s : Bridge P} {effects : List (Effect P)} (r : Run P rand made effects s) where
    -- On every bridge that the threads reach from its construction, the descriptor of a client is
    -- the one that the last `accept` of the run gave, as long as the client is there.
    pub client-IsAttached : IsAttached s.tcp_server (last_accept P rand r)
    client-IsAttached = Run-IsAttached P rand r sound made_lem.0

    -- Where `spin` was never called without a client, the destructors shut down and close an
    -- indeterminate descriptor, twice, and the inbound thread adds nothing to it.
    pub never_listened :
        AllowsAll P rand NeverListens r
        → (woken : Bool) (schedule : List Bool)
        → (destroy P s woken schedule).1
          ≡ shut_down indeterminate
            ∷ closed indeterminate
            ∷ logged warn "TCP server: client disconnected"
            ∷ shut_down indeterminate
            ∷ closed indeterminate
            ∷ logged warn "TCP server: client disconnected"
            ∷ closed s.tcp_server.server_fd
            ∷ []
    never_listened never woken schedule =
        let life = Run-Life P rand NeverListens r never sound in
        let same = Life-client_fd P NeverListens (λ h. h) life ∙ made_lem.1 in
        let down = Life-down P NeverListens (λ h. h) life made_lem.0 in
        (destroy_lem P s woken schedule).3
        ∙ ap (λ b. ends_of P s.tcp_server b schedule ++ closed s.tcp_server.server_fd ∷ [])
            (never_in_receive woken down)
        ∙ ap
            (λ q.
              (shut_down s.tcp_server.client_fd ∷ q ++ again P s.tcp_server)
              ++ closed s.tcp_server.server_fd ∷ [])
            (interleave-nil schedule (rest P s.tcp_server))
        ∙ rw (same) refl
      where
        never_in_receive :
            (woken : Bool) → s.tcp_server.is_connected ≡ false → in_receive P s woken ≡ false
        never_in_receive woken down = rw down refl
