-- ===== src/TcpServer/Hooks.antt =====
-- The hooks of the server: how often each is called while the client comes and goes.
use hive_mind_bridge.Prelude.{
  ℕ, ◌+◌, ◌≤◌, ◌≡◌, ◌≢◌, Bool, true, false, Option, none, some, List, [], ◌++◌, All, arith,
  beq_refl, if◌then◌else◌, nat_eq,
}
use hive_mind_bridge.Pheromones.{Pheromones}
use hive_mind_bridge.Effect.{Effect}
use hive_mind_bridge.Effect.Calls.{IsSilent, calls, calls-append, calls-IsSilent, called_by}
use hive_mind_bridge.TcpServer.Life.{
  Event, listening, setting, Life, begins, passes, listens, loses, closes, sets_connect,
  sets_disconnect,
}
use hive_mind_bridge.TcpServer.{TcpServer, listen, close, lose_client}

-- The two hooks are set, each to its own function.
abbrev pub HasHooks : (connect disconnect : ℕ) → TcpServer → Type 0
HasHooks c d s = (s.connect_hook ≡ some c) × (s.disconnect_hook ≡ some d) × (c ≢ d)

abbrev pub clients : TcpServer → ℕ
clients s = if s.is_connected then 1 else 0

-- The lives in which no hook is set.
abbrev pub LeavesHooks : Event → Type 0
LeavesHooks listening = Unit
LeavesHooks setting = ⊥

module _ (P : Pheromones) (c d : ℕ) where
  -- From `s` to `t`, the clients that the disconnect hook reported gone are among those that the
  -- connect hook reported and the one that was there at first, and a client that is there now is
  -- another one of them.
  abbrev pub IsBalanced : TcpServer → List (Effect P) → TcpServer → Type 0
  IsBalanced s effects t =
      HasHooks c d t × (calls P d effects + clients t ≤ calls P c effects + clients s)

  pub IsBalanced-append :
      (s t u : TcpServer) (es fs : List (Effect P))
      → IsBalanced s es t
      → IsBalanced t fs u
      → IsBalanced s (es ++ fs) u
  IsBalanced-append s t u es fs (_, first) (hooks, second) =
      (hooks, omega (arith, calls-append P c es fs, calls-append P d es fs))

  pub silent-IsBalanced :
      (s : TcpServer) (es : List (Effect P))
      → All (IsSilent P) es
      → HasHooks c d s
      → IsBalanced s es s
  silent-IsBalanced s es silent hooks =
      (hooks, omega (arith, calls-IsSilent P c es silent, calls-IsSilent P d es silent))

  close-IsBalanced : (s : TcpServer) → HasHooks c d s → IsBalanced s (close P s).1 (close P s).0
  unfolding close calls
  close-IsBalanced s hooks = (hooks, omega arith)

  listen-IsBalanced :
      (s : TcpServer) (started : Bool) (accepted : Option ℕ)
      → HasHooks c d s
      → s.is_connected ≡ false
      → IsBalanced s (listen P s started accepted).1 (listen P s started accepted).0
  unfolding listen calls called_by
  listen-IsBalanced s false none hooks down = (hooks, rw down (omega arith))
  listen-IsBalanced s true none hooks down = (hooks, rw down (omega arith))
  listen-IsBalanced s false (some fd) (connect, disconnect, different) down =
      ((connect, disconnect, different), rw (connect, down) (ground (arith, beq_refl c)))
  listen-IsBalanced s true (some fd) (connect, disconnect, different) down =
      ((connect, disconnect, different), rw (connect, down) (ground (arith, beq_refl c)))

  lose_client-IsBalanced :
      (s : TcpServer)
      → HasHooks c d s
      → s.is_connected ≡ true
      → IsBalanced s (lose_client P s).1 (lose_client P s).0
  unfolding lose_client calls called_by
  lose_client-IsBalanced s (connect, disconnect, different) up =
      ((connect, disconnect, different), rw (disconnect, up) (ground (arith, beq_refl d)))

  -- In every life in which no hook is set.
  pub Life-IsBalanced :
      (s t : TcpServer) (es : List (Effect P))
      → Life P LeavesHooks s es t
      → HasHooks c d s
      → IsBalanced s es t
  Life-IsBalanced s t es (begins) hooks = silent-IsBalanced s [] tt hooks
  Life-IsBalanced s t es (passes {es = es'} l silent quiet) hooks =
      let before = Life-IsBalanced s t es' l hooks in
      IsBalanced-append s t t es' silent before (silent-IsBalanced t silent quiet before.0)
  Life-IsBalanced s t es (listens {es = es'} {t = t'} l a down started accepted) hooks =
      let before = Life-IsBalanced s t' es' l hooks in
      IsBalanced-append s t' t es' (listen P t' started accepted).1 before
        (listen-IsBalanced t' started accepted before.0 down)
  Life-IsBalanced s t es (loses {es = es'} {t = t'} l up) hooks =
      let before = Life-IsBalanced s t' es' l hooks in
      IsBalanced-append s t' t es' (lose_client P t').1 before
        (lose_client-IsBalanced t' before.0 up)
  Life-IsBalanced s t es (closes {es = es'} {t = t'} l) hooks =
      let before = Life-IsBalanced s t' es' l hooks in
      IsBalanced-append s t' t es' (close P t').1 before (close-IsBalanced t' before.0)
  Life-IsBalanced s t es (sets_connect l a hook) hooks = absurd a
  Life-IsBalanced s t es (sets_disconnect l a hook) hooks = absurd a
