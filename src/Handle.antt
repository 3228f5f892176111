-- ===== src/Handle.antt =====
-- src/InboundRequestHandle.cpp, src/InboundResponseHandle.cpp and src/OutboundRequestHandle.cpp: what
-- the bridge remembers of a message.
use hive_mind_bridge.Prelude.{ℕ, ◌+◌, String, Option, List}
use hive_mind_bridge.Pheromones.{Pheromones}
use hive_mind_bridge.Callback.{CallbackReturn}

module _ (P : Pheromones) where
  open P use {
    MessageDto, FunctionCallArgumentDto, UserCallTargetDto, GenericResponseStatusDto, host,
    default_message_dto,
  }

  -- A `std::shared_future` of a callback: default constructed, or of a thread that still runs, or
  -- done.
  pub data Future : Type 0 where
    invalid : Future
    running : (args : List FunctionCallArgumentDto) → (function_name : String) → Future
    ready : Option (CallbackReturn P) → Future

  pub record InboundRequestHandle : Type 0 where
    pub callback_name : String
    pub response_message : MessageDto
    pub callback_return_context : Future
    pub msg_source_id : ℕ
    pub msg_destination_id : ℕ
    pub source_module : UserCallTargetDto

  -- The ids and the module of a default handle are indeterminate in C++, and are read only where a
  -- valid future says that they were set.
  abbrev pub default_request_handle : InboundRequestHandle
  default_request_handle = record {
    callback_name = "";
    response_message = default_message_dto;
    callback_return_context = invalid;
    msg_source_id = 0;
    msg_destination_id = 0;
    source_module = host;
  }

  abbrev pub set_response : InboundRequestHandle → (message : MessageDto) → InboundRequestHandle
  set_response h message = record h { response_message = message }

  abbrev pub set_callback_return_context :
      InboundRequestHandle → (future : Future) → InboundRequestHandle
  set_callback_return_context h future = record h { callback_return_context = future }

  abbrev pub set_callback_name : InboundRequestHandle → (name : String) → InboundRequestHandle
  set_callback_name h name = record h { callback_name = name }

  abbrev pub set_message_source_id : InboundRequestHandle → (id : ℕ) → InboundRequestHandle
  set_message_source_id h id = record h { msg_source_id = id }

  abbrev pub set_message_destination_id : InboundRequestHandle → (id : ℕ) → InboundRequestHandle
  set_message_destination_id h id = record h { msg_destination_id = id }

  abbrev pub set_source_module :
      InboundRequestHandle → (target : UserCallTargetDto) → InboundRequestHandle
  set_source_module h target = record h { source_module = target }

  pub record InboundResponseHandle : Type 0 where
    pub response_id : ℕ
    pub response_status : GenericResponseStatusDto
    pub status_details : String

  abbrev set_response_id : InboundResponseHandle → (id : ℕ) → InboundResponseHandle
  set_response_id h id = record h { response_id = id }

  abbrev set_response_status :
      InboundResponseHandle → (status : GenericResponseStatusDto) → InboundResponseHandle
  set_response_status h status = record h { response_status = status }

  abbrev set_status_details : InboundResponseHandle → (details : String) → InboundResponseHandle
  set_status_details h details = record h { status_details = details }

  pub data OutboundRequestState : Type 0 where
    ready sent : OutboundRequestState

  pub record OutboundRequestHandle : Type 0 where
    pub state : OutboundRequestState
    pub message : MessageDto
    pub delay_since_sent : ℕ

  abbrev pub outbound_request_handle : MessageDto → OutboundRequestHandle
  outbound_request_handle message = record {
    state = OutboundRequestState.ready;
    message = message;
    delay_since_sent = 0;
  }

  abbrev pub set_state : OutboundRequestHandle → OutboundRequestState → OutboundRequestHandle
  set_state h state = record h { state = state }

  abbrev set_message : OutboundRequestHandle → MessageDto → OutboundRequestHandle
  set_message h message = record h { message = message }

  -- The sum stays far below the limit of an `int`: a handle is dropped at 10.
  abbrev pub bump_delay_since_sent :
      OutboundRequestHandle → (bump_value : ℕ) → OutboundRequestHandle
  bump_delay_since_sent h bump_value = record h {
    delay_since_sent = h.delay_since_sent + bump_value;
  }
