-- ===== src/Tests/Callbacks.antt =====
-- A host with one registered function, and requests of another agent about it.
use hive_mind_bridge.Prelude.{
  ◌<◌, ◌≡◌, ◌⊎◌, refl, true, false, some, none, List, [], ◌∷◌, String, arith, length, insert,
  lookup, string_eq, is_set, get_elem?, map, value, undefined_behaviour,
}
use hive_mind_bridge.Pheromones
use hive_mind_bridge.Effect.{Effect, logged, warn}
use hive_mind_bridge.Callback.{
  CallbackFunction, CallbackArgsManifest, UserCallbackFunctionWrapper, returned,
}
use hive_mind_bridge.UserCallbackMap.{
  UserCallbackMap, register_callback, get_callback, get_length, get_name_at, get_manifest_at,
}
use hive_mind_bridge.UserCallbackMap.Invariant.{
  IsConsistent, new_callback_map-IsConsistent, register_callback-IsConsistent,
}
use hive_mind_bridge.UserCallbackMap.Registry.{registry, register_callback-registry, get_at_past}
use hive_mind_bridge.UserCallbackMap.Contract.{user_callback_map}
use hive_mind_bridge.UserCallbackMap.Discovery.{read, discovers}
use hive_mind_bridge.Handle.{InboundRequestHandle, invalid, running}
use hive_mind_bridge.UserCallRequestHandler.{handle_message}
use hive_mind_bridge.UserCallRequestHandler.Replies.{
  Answers, handle_message-call, handle_message-description,
}
use hive_mind_bridge.Tests.Sample.{sample, Message, UserCall, Target, Status}

abbrev move : CallbackFunction sample
move args = returned none

abbrev manifest : CallbackArgsManifest sample
manifest = record { name = "x"; type = 0 } ∷ []

abbrev no_functions : UserCallbackMap sample
no_functions = record { callbacks = []; callback_names = [] }

abbrev one_function : UserCallbackMap sample
one_function = record {
  callbacks = ("move", record { function = move; manifest = manifest }) ∷ [];
  callback_names = "move" ∷ [];
}

one_function-IsConsistent : IsConsistent sample one_function
unfolding register_callback insert lookup
one_function-IsConsistent =
    register_callback-IsConsistent sample no_functions "move" move manifest
      (new_callback_map-IsConsistent sample)

register_callback-registry_example :
    let (m', overwriting) = register_callback sample one_function "move" move [] in
    (registry sample m'
      ≡ insert "move" (record { function = move; manifest = [] }) (registry sample one_function))
    × (overwriting ≡ true)
register_callback-registry_example =
    register_callback-registry sample one_function "move" move [] one_function-IsConsistent

get_at_past_example :
    ((1 < 1)
      × (get_name_at sample one_function 1 ≡ value none)
      × (get_manifest_at sample one_function 1 ≡ value (one_function, none)))
    ⊎ ((1 ≡ length one_function.callback_names)
        × (get_name_at sample one_function 1 ≡ undefined_behaviour)
        × (get_manifest_at sample one_function 1 ≡ undefined_behaviour))
get_at_past_example = get_at_past sample one_function 1 (omega arith)

abbrev call_request : UserCall
call_request =
    (Target.buzz, Target.host, Pheromones.UserCallRequestBody.function_call ("move", 7 ∷ []))

abbrev describe_request : UserCall
describe_request = (Target.buzz, Target.host, Pheromones.UserCallRequestBody.function_description 0)

abbrev message_of : UserCall → Message
message_of uc = (9, 4, Pheromones.MessageBody.request (20, Pheromones.RequestBody.user_call uc))

abbrev call_answer : sample.GenericResponseStatusDto → String → sample.UserCallResponseDto
call_answer status details =
    (Target.host, Target.buzz, Pheromones.UserCallResponseBody.function_call (status, details))

abbrev description_answer : sample.FunctionDescriptionResponseDto → sample.UserCallResponseDto
description_answer answer =
    (Target.host, Target.buzz, Pheromones.UserCallResponseBody.function_description answer)

handle_message-call_example :
    let message = message_of call_request in
    (handle : InboundRequestHandle sample) × (effects : List (Effect sample)) × (handle_message
        sample one_function message call_request
      ≡ value (one_function, handle, effects))
    × (((is_set (get_callback sample one_function "move") ≡ true)
          × (handle.callback_return_context ≡ running (7 ∷ []) "move")
          × (handle.msg_source_id ≡ 9)
          × (handle.msg_destination_id ≡ 4)
          × (handle.source_module ≡ Target.buzz)
          × (effects ≡ [])
          × Answers sample message 20 (call_answer Status.ok "") handle.response_message)
        ⊎ ((is_set (get_callback sample one_function "move") ≡ false)
            × (handle.callback_return_context ≡ invalid)
            × (effects ≡ logged warn "Function name \"%s\" was not registered as a callback" ∷ [])
            × Answers sample message 20
                (call_answer Status.bad_request "Unknown function.")
                handle.response_message))
handle_message-call_example =
    handle_message-call sample one_function (message_of call_request)
      (20, Pheromones.RequestBody.user_call call_request) call_request refl ("move", 7 ∷ []) refl

handle_message-description_example :
    let message = message_of describe_request in
    ((0 < 1)
      × (name : String) × (w : UserCallbackFunctionWrapper sample) × (handle : InboundRequestHandle
          sample)
      × (get_elem? (registry sample one_function) 0 ≡ some (name, w))
      × (handle_message sample one_function message describe_request
          ≡ value (one_function, handle, []))
      × (handle.callback_return_context ≡ invalid)
      × Answers sample message 20
          (description_answer (
            Pheromones.DescriptionBody.description
              (name, map (λ arg. (arg.name, arg.type)) w.manifest)))
          handle.response_message)
    ⊎ (((1 < 0)
          × (handle : InboundRequestHandle sample) × (handle_message sample one_function message
                describe_request
              ≡ value (one_function, handle, []))
          × (handle.callback_return_context ≡ invalid)
          × Answers sample message 20
              (description_answer
                (Pheromones.DescriptionBody.generic (Status.bad_request, "Index out of bounds.")))
              handle.response_message)
        ⊎ ((0 ≡ length one_function.callback_names)
            × (handle_message sample one_function message describe_request ≡ undefined_behaviour)))
handle_message-description_example =
    handle_message-description sample one_function (message_of describe_request)
      (20, Pheromones.RequestBody.user_call describe_request) describe_request refl 0
      one_function-IsConsistent refl

discovers_example :
    read sample (user_callback_map sample) (get_length sample one_function) 0 one_function
    ≡ value (one_function, (some "move", some manifest) ∷ [])
unfolding lookup
discovers_example = discovers sample one_function one_function-IsConsistent (omega arith)
