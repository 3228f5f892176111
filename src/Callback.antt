-- ===== src/Callback.antt =====
-- include/hivemind-bridge/Callback.h, src/UserCallbackArgumentDescription.cpp and
-- src/UserCallbackFunctionWrapper.cpp: the user's functions and what is known of their arguments.
use hive_mind_bridge.Prelude.{Option, List, String}
use hive_mind_bridge.Pheromones.{Pheromones}

module _ (P : Pheromones) where
  open P use {FunctionCallArgumentDto, FunctionDescriptionArgumentTypeDto}

  abbrev pub CallbackArgs : Type 0
  CallbackArgs = List FunctionCallArgumentDto

  pub record CallbackReturn : Type 0 where
    pub args : List FunctionCallArgumentDto
    pub return_function_name : String

  -- What a call of a user's function comes to: it returns, or it throws. A call of an empty
  -- `std::function` throws a `std::bad_function_call`, which is a `std::exception`.
  pub data CallOutcome : Type 0 where
    returned : Option CallbackReturn → CallOutcome
    threw_exception : CallOutcome
    threw_unknown : CallOutcome

  abbrev pub CallbackFunction : Type 0
  CallbackFunction = CallbackArgs → CallOutcome

  pub record UserCallbackArgumentDescription : Type 0 where
    pub name : String
    pub type : FunctionDescriptionArgumentTypeDto

  abbrev pub CallbackArgsManifest : Type 0
  CallbackArgsManifest = List UserCallbackArgumentDescription

  pub record UserCallbackFunctionWrapper : Type 0 where
    pub function : CallbackFunction
    pub manifest : CallbackArgsManifest
