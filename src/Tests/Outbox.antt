-- ===== src/Tests/Outbox.antt =====
-- Two requests that are sent, and one that is queued behind them.
use mathlib.Core.List.{Sublist}
use hive_mind_bridge.Prelude.{refl, inr, [], ◌∷◌, ◌++◌, arith, lookup}
use hive_mind_bridge.UserCallbackMap.Invariant.{new_callback_map-IsConsistent}
use hive_mind_bridge.Bridge.{Bridge, queue_and_send}
use hive_mind_bridge.Bridge.Outbound.{outbound_round, process}
use hive_mind_bridge.Bridge.System.{Run, next, queues}
use hive_mind_bridge.Bridge.System.Invariant.{IsSound}
use hive_mind_bridge.Bridge.System.Unsent.{unsent, messages}
use hive_mind_bridge.Bridge.System.Outbox.{
  accepted, queued, sent_by, all_queued, all_sent, run_sends_in_order,
}
use hive_mind_bridge.Tests.Sample.{sample}
use hive_mind_bridge.Tests.Transfers.{request_of}
use hive_mind_bridge.Tests.Runs
use hive_mind_bridge.Tests.Runs.{rand, rounds, rounds_effects, sent_twice}

abbrev extended : Bridge sample
extended = (queue_and_send sample sent_twice (request_of 12)).0

extended_run : Run sample rand Runs.queued (rounds_effects ++ []) extended
extended_run = next rounds (queues sent_twice (request_of 12))

sound : IsSound sample Runs.queued
sound = record {
  consistent = new_callback_map-IsConsistent sample;
  known = tt;
  served = inr (refl, refl);
  timely = (refl, (refl, tt));
  counter = omega arith;
}

run_sends_in_order_example :
    Sublist
      (request_of 10 ∷ request_of 11 ∷ request_of 12 ∷ [])
      (request_of 10 ∷ request_of 11 ∷ request_of 12 ∷ [])
unfolding extended_run rounds outbound_round process lookup queue_and_send accepted queued sent_by
    all_queued all_sent unsent messages
run_sends_in_order_example = run_sends_in_order sample rand extended_run sound
