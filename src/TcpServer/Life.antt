-- ===== src/TcpServer/Life.antt =====
-- The connection as a state machine: what may happen to the server, one thing after the other.
use hive_mind_bridge.Prelude.{
  ℕ, ◌≡◌, refl, sym, subst, Bool, true, false, Option, List, [], ◌++◌, All, append_assoc,
  append-nil,
}
use hive_mind_bridge.Pheromones.{Pheromones}
use hive_mind_bridge.Effect.{Effect}
use hive_mind_bridge.Effect.Calls.{IsSilent}
use hive_mind_bridge.TcpServer.{
  TcpServer, listen, close, lose_if, lose_client, on_connect, on_disconnect,
}

-- What a life may exclude: that the server listens, that a hook is set.
pub data Event : Type 0 where
  listening setting : Event

module _ (P : Pheromones) (allowed : Event → Type 0) where
  -- The server listens only without a client, and loses only a client that is there. Between its own
  -- operations pass effects that touch neither the descriptors nor the hooks.
  pub data Life (s : TcpServer) : List (Effect P) → TcpServer → Type 0 where
    begins : Life s [] s
    passes :
        {es : List (Effect P)} {t : TcpServer}
        → Life s es t
        → (silent : List (Effect P)) → All (IsSilent P) silent
        → Life s (es ++ silent) t
    listens :
        {es : List (Effect P)} {t : TcpServer}
        → Life s es t
        → allowed listening
        → t.is_connected ≡ false
        → (started : Bool) (accepted : Option ℕ)
        → Life s (es ++ (listen P t started accepted).1) (listen P t started accepted).0
    loses :
        {es : List (Effect P)} {t : TcpServer}
        → Life s es t
        → t.is_connected ≡ true
        → Life s (es ++ (lose_client P t).1) (lose_client P t).0
    closes :
        {es : List (Effect P)} {t : TcpServer}
        → Life s es t
        → Life s (es ++ (close P t).1) (close P t).0
    sets_connect :
        {es : List (Effect P)} {t : TcpServer}
        → Life s es t
        → allowed setting
        → (hook : Option ℕ) → Life s es (on_connect t hook)
    sets_disconnect :
        {es : List (Effect P)} {t : TcpServer}
        → Life s es t
        → allowed setting
        → (hook : Option ℕ) → Life s es (on_disconnect t hook)

  pub loses_if :
      {s t : TcpServer} {es : List (Effect P)} (lost : Bool)
      → Life s es t
      → t.is_connected ≡ true
      → Life s (es ++ (lose_if P lost t).1) (lose_if P lost t).0
  unfolding lose_if
  loses_if true l up = loses l up
  loses_if false l up = passes l [] tt

  regroup :
      {s u : TcpServer} (es fs gs : List (Effect P))
      → Life s ((es ++ fs) ++ gs) u
      → Life s (es ++ (fs ++ gs)) u
  regroup {s} {u} es fs gs l = subst (λ x. Life s x u) (append_assoc es fs gs) l

  -- One life after another.
  pub Life-append :
      {s t u : TcpServer} (es fs : List (Effect P))
      → Life s es t
      → Life t fs u
      → Life s (es ++ fs) u
  Life-append {s} {t} {u} es fs l (begins) = subst (λ x. Life s x t) (sym (append-nil es)) l
  Life-append {s} {t} {u} es fs l (passes {es = es'} k silent quiet) =
      regroup es es' silent (passes (Life-append es es' l k) silent quiet)
  Life-append {s} {t} {u} es fs l (listens {es = es'} {t = t'} k a down started accepted) =
      regroup es es' _ (listens (Life-append es es' l k) a down started accepted)
  Life-append {s} {t} {u} es fs l (loses {es = es'} {t = t'} k up) =
      regroup es es' _ (loses (Life-append es es' l k) up)
  Life-append {s} {t} {u} es fs l (closes {es = es'} {t = t'} k) =
      regroup es es' _ (closes (Life-append es es' l k))
  Life-append {s} {t} {u} es fs l (sets_connect k a hook) =
      sets_connect (Life-append es fs l k) a hook
  Life-append {s} {t} {u} es fs l (sets_disconnect k a hook) =
      sets_disconnect (Life-append es fs l k) a hook

  -- A server that never listens keeps the descriptor of its client.
  pub Life-client_fd :
      {s t : TcpServer} {es : List (Effect P)}
      → ¬ (allowed listening)
      → Life s es t
      → t.client_fd ≡ s.client_fd
  unfolding close lose_client on_connect on_disconnect
  Life-client_fd never (begins) = refl
  Life-client_fd never (passes l es silent) = Life-client_fd never l
  Life-client_fd never (listens l a down started accepted) = absurd (never a)
  Life-client_fd never (loses l up) = Life-client_fd never l
  Life-client_fd never (closes l) = Life-client_fd never l
  Life-client_fd never (sets_connect l a hook) = Life-client_fd never l
  Life-client_fd never (sets_disconnect l a hook) = Life-client_fd never l

  -- A server that never listens finds no client.
  pub Life-down :
      {s t : TcpServer} {es : List (Effect P)}
      → ¬ (allowed listening)
      → Life s es t
      → s.is_connected ≡ false
      → t.is_connected ≡ false
  unfolding close lose_client on_connect on_disconnect
  Life-down never (begins) down = down
  Life-down never (passes l es silent) down = Life-down never l down
  Life-down never (listens l a _ started accepted) down = absurd (never a)
  Life-down never (loses l up) down = refl
  Life-down never (closes l) down = refl
  Life-down never (sets_connect l a hook) down = Life-down never l down
  Life-down never (sets_disconnect l a hook) down = Life-down never l down
