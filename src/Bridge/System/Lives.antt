-- ===== src/Bridge/System/Lives.antt =====
-- A run of the bridge is a life of its server.
use hive_mind_bridge.Prelude.{ℕ, List, [], ◌∷◌}
use hive_mind_bridge.Pheromones.{Pheromones}
use hive_mind_bridge.Effect.{Effect, logged}
use hive_mind_bridge.UserCallRequestHandler.{finish_call}
use hive_mind_bridge.Effect.Calls.{All-IsSilent}
use hive_mind_bridge.TcpServer
use hive_mind_bridge.TcpServer.Life.{Event, listening, setting, Life, begins, passes, Life-append}
use hive_mind_bridge.Bridge.{Bridge, queue_and_send}
use hive_mind_bridge.Bridge.Spin.{sweep, keep_alive}
use hive_mind_bridge.Bridge.Requests.{
  register_custom_action, on_connect, on_disconnect, on_bytes_received, on_neighbor_list_updated,
  on_neighbor_updated,
}
use hive_mind_bridge.Bridge.System.{
  Step, connects, handles, sweeps, keeps_alive, receives, sends, finishes, registers, draws, queues,
  reports, sets_bytes, sets_list, sets_neighbor, Run, here, next,
}
use hive_mind_bridge.Bridge.System.Server.{
  Lives, quiet, handle_front-Lives, outbound_round-Lives, inbound_round-Lives,
  spin_disconnected-Lives,
}
use hive_mind_bridge.Bridge.System.Reach.{Run-IsSound}
use hive_mind_bridge.Bridge.System.Silent.{
  sweep-IsPlain, finish_call-IsPlain, keep_alive-server, queue_and_send-server,
}
use hive_mind_bridge.Bridge.System.Invariant.{IsSound}

module _ (P : Pheromones) where
  module _ (rand : ℕ → ℕ) (allowed : Event → Type 0) where
    -- The step is one that the life may have.
    abbrev pub Allows :
        {s u : Bridge P} {effects : List (Effect P)} → Step P rand s effects u → Type 0
    Allows (connects s k down) = allowed listening
    Allows (Step.sets_connect s hook) = allowed setting
    Allows (Step.sets_disconnect s hook) = allowed setting
    Allows _ = Unit

    -- All steps of the run are such.
    abbrev pub AllowsAll :
        {s u : Bridge P} {effects : List (Effect P)} → Run P rand s effects u → Type 0
    AllowsAll (here) = Unit
    AllowsAll (next r st) = AllowsAll r × Allows st

    Allows-all :
        ((e : Event) → allowed e)
        → {s u : Bridge P} {effects : List (Effect P)} (st : Step P rand s effects u) → Allows st
    Allows-all all (connects s k down) = all listening
    Allows-all all (handles s e) = tt
    Allows-all all (sweeps s) = tt
    Allows-all all (keeps_alive s) = tt
    Allows-all all (receives s lost received up) = tt
    Allows-all all (sends s up e) = tt
    Allows-all all (finishes s before after h e) = tt
    Allows-all all (registers s name f a) = tt
    Allows-all all (draws s) = tt
    Allows-all all (queues s message) = tt
    Allows-all all (reports s level text) = tt
    Allows-all all (Step.sets_connect s hook) = all setting
    Allows-all all (Step.sets_disconnect s hook) = all setting
    Allows-all all (sets_bytes s hook) = tt
    Allows-all all (sets_list s hook) = tt
    Allows-all all (sets_neighbor s hook) = tt

    pub AllowsAll-all :
        ((e : Event) → allowed e)
        → {s u : Bridge P} {effects : List (Effect P)} (r : Run P rand s effects u) → AllowsAll r
    AllowsAll-all all (here) = tt
    AllowsAll-all all (next r st) = (AllowsAll-all all r, Allows-all all st)

    pub Step-Life :
        {s u : Bridge P} {effects : List (Effect P)} (st : Step P rand s effects u)
        → Allows st
        → IsSound P s
        → Lives P allowed s effects u
    unfolding register_custom_action on_bytes_received on_neighbor_list_updated on_neighbor_updated
        on_connect on_disconnect TcpServer.on_connect TcpServer.on_disconnect
    Step-Life (connects s k down) allows sound = spin_disconnected-Lives P allowed s k allows down
    Step-Life (handles s {s'} {effects} e) allows sound =
        handle_front-Lives P allowed s s' effects e sound
    Step-Life (sweeps s) allows sound =
        passes begins (sweep P rand s.drawn s.inbound_requests_queue).2 (
          All-IsSilent P (sweep P rand s.drawn s.inbound_requests_queue).2
            (sweep-IsPlain P rand s.drawn s.inbound_requests_queue))
    Step-Life (keeps_alive s) allows sound =
        quiet P allowed s (keep_alive P s) [] tt (keep_alive-server P s)
    Step-Life (receives s lost received up) allows sound =
        inbound_round-Lives P allowed s lost received
    Step-Life (sends s {s'} {effects} up e) allows sound =
        outbound_round-Lives P allowed s s' effects e
    Step-Life (finishes s before after h e) allows sound =
        passes begins (finish_call P s.handlers.callback_map h.callback_return_context).1 (
          All-IsSilent P (finish_call P s.handlers.callback_map h.callback_return_context).1
            (finish_call-IsPlain P s.handlers.callback_map h.callback_return_context))
    Step-Life (registers s name f a) allows sound = begins
    Step-Life (draws s) allows sound = begins
    Step-Life (queues s message) allows sound =
        quiet P allowed s (queue_and_send P s message).0 [] tt (queue_and_send-server P s message)
    Step-Life (reports s level text) allows sound = passes begins (logged level text ∷ []) (tt, tt)
    Step-Life (Step.sets_connect s hook) allows sound = Life.sets_connect begins allows hook
    Step-Life (Step.sets_disconnect s hook) allows sound = Life.sets_disconnect begins allows hook
    Step-Life (sets_bytes s hook) allows sound = begins
    Step-Life (sets_list s hook) allows sound = begins
    Step-Life (sets_neighbor s hook) allows sound = begins

    -- Every run of a sound bridge is, for its server, a life: the server listens only without a client,
    -- loses only a client that is there, and closes; the hooks are called and the descriptors are shut
    -- down and closed by these operations alone, and a run that leaves an event out is a life that does.
    pub Run-Life :
        {s u : Bridge P} {effects : List (Effect P)} (r : Run P rand s effects u)
        → AllowsAll r
        → IsSound P s
        → Lives P allowed s effects u
    Run-Life (here) allows sound = begins
    Run-Life {s} (next {effects} {later} {t} {u} r st) (before, allows) sound =
        Life-append P allowed effects later (Run-Life r before sound)
          (Step-Life st allows (Run-IsSound P rand r sound))
