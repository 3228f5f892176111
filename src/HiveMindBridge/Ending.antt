-- ===== src/HiveMindBridge/Ending.antt =====
-- What the destructors do to the server, `~HiveMindBridgeImpl` and then `~TCPServer`: the effects, with
-- those of the inbound thread among them where it was in `recv`.
use hive_mind_bridge.Prelude.{
  ℕ, ◌+◌, ◌≡◌, refl, sym, ◌∙◌, Bool, true, false, Option, none, some, List, [], ◌∷◌, ◌++◌, All,
  All-append, All-interleave, append_assoc, arith, beq_refl, if◌then◌else◌, interleave,
  measure-append, measure-interleave, nat_eq, total,
}
use hive_mind_bridge.Pheromones.{Pheromones}
use hive_mind_bridge.Effect.{Effect, logged, warn, hook_called, shut_down, closed}
use hive_mind_bridge.Effect.Calls.{calls, called_by}
use hive_mind_bridge.TcpServer.{TcpServer, close, lose_if, lose_client, call_hook}
use hive_mind_bridge.TcpServer.Hooks.{HasHooks}
use hive_mind_bridge.Bridge.{Bridge}
use hive_mind_bridge.HiveMindBridge.{destroy_bridge, destroy_server, destroy, in_receive, overlap}

module _ (P : Pheromones) where
  abbrev shuts : Effect P → ℕ
  shuts (shut_down fd) = 1
  shuts _ = 0

  abbrev closes : Effect P → ℕ
  closes (closed fd) = 1
  closes _ = 0

  -- How often descriptors are shut down, and how often they are closed.
  abbrev pub shut_downs : List (Effect P) → ℕ
  shut_downs es = total shuts es

  abbrev pub closings : List (Effect P) → ℕ
  closings es = total closes es

  -- The effect shuts down or closes the client's descriptor, calls the disconnect hook, or is a line
  -- of the log.
  abbrev pub Ends : TcpServer → Effect P → Type 0
  Ends s (shut_down fd) = fd ≡ s.client_fd
  Ends s (closed fd) = fd ≡ s.client_fd
  Ends s (hook_called hook) = s.disconnect_hook ≡ some hook
  Ends s (logged level text) = Unit
  Ends s _ = ⊥

  -- The client's descriptor is shut down and closed that often, and then the server's is closed.
  abbrev pub IsClosing : TcpServer → (rounds : ℕ) → List (Effect P) → Type 0
  IsClosing s rounds effects =
      (ends : List (Effect P)) × (effects ≡ ends ++ closed s.server_fd ∷ [])
      × All (Ends s) ends
      × (shut_downs ends ≡ rounds)
      × (closings ends ≡ rounds)

  module _ (s : TcpServer) where
    abbrev pub again : List (Effect P)
    again =
        shut_down s.client_fd
        ∷ closed s.client_fd
        ∷ logged warn "TCP server: client disconnected"
        ∷ []

    abbrev pub rest : List (Effect P)
    rest = closed s.client_fd ∷ logged warn "TCP server: client disconnected" ∷ []

    -- What the inbound thread does where `recv` gives it 0 bytes.
    abbrev ending : Bool → List (Effect P)
    ending true = logged warn "TCP client disconnected" ∷ call_hook P s.disconnect_hook ++ again
    ending false = []

    abbrev pub ends_of : Bool → List Bool → List (Effect P)
    ends_of blocked schedule =
        (shut_down s.client_fd ∷ interleave schedule rest (ending blocked)) ++ again

    call_hook-Ends : (hook : Option ℕ) → s.disconnect_hook ≡ hook → All (Ends s) (call_hook P hook)
    call_hook-Ends none e = tt
    call_hook-Ends (some hook) e = (e, tt)

    ending-Ends : (blocked : Bool) → All (Ends s) (ending blocked)
    ending-Ends true = (
      tt,
      All-append (Ends s) (call_hook P s.disconnect_hook) again
          (call_hook-Ends s.disconnect_hook refl) (refl, (refl, (tt, tt))),
    )
    ending-Ends false = tt

    pub ends_of-Ends :
        (blocked : Bool) (schedule : List Bool) → All (Ends s) (ends_of blocked schedule)
    ends_of-Ends blocked schedule =
        All-append (Ends s) (shut_down s.client_fd ∷ interleave schedule rest (ending blocked))
          again
          (
            refl,
            All-interleave (Ends s) schedule rest (ending blocked) (refl, (tt, tt))
                (ending-Ends blocked),
          )
          (refl, (refl, (tt, tt)))

    module _ (measure : List (Effect P) → ℕ) (weight : Effect P → ℕ) (nil : measure [] ≡ 0)
        (first : (e : Effect P) (es : List (Effect P))
          → measure (e ∷ es) ≡ weight e + measure es) where
      ends_of-measure :
          (blocked : Bool) (schedule : List Bool)
          → measure (ends_of blocked schedule)
            ≡ weight (shut_down s.client_fd)
              + (measure rest + measure (ending blocked))
              + measure again
      ends_of-measure blocked schedule =
          let front = shut_down s.client_fd ∷ interleave schedule rest (ending blocked) in
          omega (
            arith,
            measure-append measure weight nil first front again,
            first (shut_down s.client_fd) (interleave schedule rest (ending blocked)),
            measure-interleave measure weight nil first schedule rest (ending blocked),
          )

    abbrev pub woken_rounds : Bool → ℕ
    woken_rounds blocked = if blocked then 1 else 0

    pub ends_of-shut_downs :
        (blocked : Bool) (schedule : List Bool)
        → shut_downs (ends_of blocked schedule) ≡ 2 + woken_rounds blocked
    ends_of-shut_downs blocked schedule =
        ends_of-measure shut_downs shuts refl (λ e es. refl) blocked schedule
        ∙ go blocked s.disconnect_hook refl
      where
        go :
            (b : Bool) (hook : Option ℕ)
            → s.disconnect_hook ≡ hook
            → 1 + (0 + shut_downs (ending b)) + 1 ≡ 2 + woken_rounds b
        go true none e = rw e refl
        go true (some hook) e = rw e refl
        go false hook e = refl

    pub ends_of-closings :
        (blocked : Bool) (schedule : List Bool)
        → closings (ends_of blocked schedule) ≡ 2 + woken_rounds blocked
    ends_of-closings blocked schedule =
        ends_of-measure closings closes refl (λ e es. refl) blocked schedule
        ∙ go blocked s.disconnect_hook refl
      where
        go :
            (b : Bool) (hook : Option ℕ)
            → s.disconnect_hook ≡ hook
            → 0 + (1 + closings (ending b)) + 1 ≡ 2 + woken_rounds b
        go true none e = rw e refl
        go true (some hook) e = rw e refl
        go false hook e = refl

    pub ends_of-calls :
        (c d : ℕ)
        → HasHooks c d s
        → (blocked : Bool) (schedule : List Bool)
        → (calls P d (ends_of blocked schedule) ≡ woken_rounds blocked)
          × (calls P c (ends_of blocked schedule) ≡ 0)
    unfolding calls called_by
    ends_of-calls c d (_, disconnect, different) true schedule = (
      ends_of-measure (calls P d) (called_by P d) refl (λ e es. refl) true schedule
          ∙ rw disconnect (ground (arith, beq_refl d)),
      ends_of-measure (calls P c) (called_by P c) refl (λ e es. refl) true schedule
          ∙ rw disconnect (ground arith),
    )
    ends_of-calls c d hooks false schedule = (
      ends_of-measure (calls P d) (called_by P d) refl (λ e es. refl) false schedule,
      ends_of-measure (calls P c) (called_by P c) refl (λ e es. refl) false schedule,
    )

  destroyed :
      (s : TcpServer) (blocked : Bool) (schedule : List Bool)
      → let (server, closing) = close P s in
        let (server', ending') = lose_if P blocked server in
        overlap P schedule closing ending'
          ++ ((close P server').1 ++ closed (close P server').0.server_fd ∷ [])
        ≡ ends_of s blocked schedule ++ closed s.server_fd ∷ []
  unfolding close lose_if lose_client
  destroyed s true schedule = sym (
      append_assoc (shut_down s.client_fd ∷ interleave schedule (rest s) (ending s true)) (again s)
        (closed s.server_fd ∷ []))
  destroyed s false schedule = sym (
      append_assoc (shut_down s.client_fd ∷ interleave schedule (rest s) []) (again s)
        (closed s.server_fd ∷ []))

  pub destroy_lem :
      (s : Bridge P) (woken : Bool) (schedule : List Bool)
      → let (s', effects) = destroy P s woken schedule in
        (s'.tcp_server.is_connected ≡ false)
        × (s'.inbound_thread ≡ false)
        × (s'.outbound_thread ≡ false)
        × (effects
            ≡ ends_of s.tcp_server (in_receive P s woken) schedule
              ++ closed s.tcp_server.server_fd ∷ [])
  unfolding destroy destroy_bridge destroy_server close
  destroy_lem s woken schedule =
      (refl, refl, refl, destroyed s.tcp_server (in_receive P s woken) schedule)
