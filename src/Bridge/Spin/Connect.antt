-- ===== src/Bridge/Spin/Connect.antt =====
-- What a spin without a client does.
use hive_mind_bridge.Prelude.{
  ℕ, ◌≡◌, ◌⊎◌, true, false, not, none, some, arith, nat_eq, Option-cases, inl, inr,
}
use hive_mind_bridge.Pheromones.{Pheromones}
use hive_mind_bridge.MessageHandler.{handle_greet}
use hive_mind_bridge.Bridge.{Bridge}
use hive_mind_bridge.Bridge.Spin.{Connection, spin_disconnected}

module _ (P : Pheromones) where
  -- A spin without a client takes one attempt to connect. If a client is accepted and answers with a
  -- greeting, the bridge has the id of the greeting and both threads start; the client is there
  -- unless it was lost on the way. Otherwise no thread runs, no client is there and the id is kept.
  pub spin_disconnected_lem :
      (s : Bridge P) (c : Connection P)
      → let s' = (spin_disconnected P s c).0 in
        (((fd : ℕ) × (c.accepted ≡ some fd))
          × ((id : ℕ) × (handle_greet P c.greet_response ≡ some id)
              × (s'.inbound_thread ≡ true)
              × (s'.outbound_thread ≡ true)
              × (s'.swarm_agent_id ≡ id)
              × (s'.tcp_server.is_connected ≡ not c.lost)))
        ⊎ (((c.accepted ≡ none) ⊎ (handle_greet P c.greet_response ≡ none))
            × (s'.inbound_thread ≡ false)
            × (s'.outbound_thread ≡ false)
            × (s'.swarm_agent_id ≡ s.swarm_agent_id)
            × (s'.tcp_server.is_connected ≡ false))
  unfolding spin_disconnected
  spin_disconnected_lem s c = elim (Option-cases c.accepted) [
    | inl refused ↦ inr (inl refused, ground arith, ground arith, ground arith, ground arith)
    | inr (fd, accepted) ↦ elim (Option-cases (handle_greet P c.greet_response)) [
      | inl silent ↦ inr (inr silent, ground arith, ground arith, ground arith, ground arith)
      | inr (id, answered) ↦
          inl
            ((fd, accepted), (id, answered, ground arith, ground arith, ground arith, ground arith))
    ]
  ]
