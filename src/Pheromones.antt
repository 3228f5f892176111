-- ===== src/Pheromones.antt =====
-- What the bridge uses of the Pheromones message library, which is not part of this repository: its
-- DTO classes are types, constructors and getters of one record, with the laws of the value classes
-- that the bridge relies on. The bodies are `std::variant`s, with the alternatives that the bridge
-- asks for; `other i` stands for every alternative that it never names, at index `i`.
use hive_mind_bridge.Prelude.{ℕ, ◌≤◌, ◌≡◌, Bool, Option, List, String, length, take}

pub data MessageBody (Request Response Greeting : Type 0) : Type 0 where
  request : Request → MessageBody Request Response Greeting
  response : Response → MessageBody Request Response Greeting
  greeting : Greeting → MessageBody Request Response Greeting
  other : (index : ℕ) → MessageBody Request Response Greeting

pub data RequestBody (UserCall HiveMindHostApi : Type 0) : Type 0 where
  user_call : UserCall → RequestBody UserCall HiveMindHostApi
  hive_mind_host_api : HiveMindHostApi → RequestBody UserCall HiveMindHostApi
  other : (index : ℕ) → RequestBody UserCall HiveMindHostApi

pub data ResponseBody (Generic UserCall HiveMindHostApi : Type 0) : Type 0 where
  generic : Generic → ResponseBody Generic UserCall HiveMindHostApi
  user_call : UserCall → ResponseBody Generic UserCall HiveMindHostApi
  hive_mind_host_api : HiveMindHostApi → ResponseBody Generic UserCall HiveMindHostApi
  other : (index : ℕ) → ResponseBody Generic UserCall HiveMindHostApi

pub data UserCallRequestBody (ListLength Description Call : Type 0) : Type 0 where
  function_list_length : ListLength → UserCallRequestBody ListLength Description Call
  function_description : Description → UserCallRequestBody ListLength Description Call
  function_call : Call → UserCallRequestBody ListLength Description Call
  other : (index : ℕ) → UserCallRequestBody ListLength Description Call

pub data UserCallResponseBody (Generic Call ListLength Description : Type 0) : Type 0 where
  generic : Generic → UserCallResponseBody Generic Call ListLength Description
  function_call : Call → UserCallResponseBody Generic Call ListLength Description
  function_list_length : ListLength → UserCallResponseBody Generic Call ListLength Description
  function_description : Description → UserCallResponseBody Generic Call ListLength Description
  other : (index : ℕ) → UserCallResponseBody Generic Call ListLength Description

pub data DescriptionBody (Description Generic : Type 0) : Type 0 where
  description : Description → DescriptionBody Description Generic
  generic : Generic → DescriptionBody Description Generic

pub data HiveMindHostApiRequestBody (Bytes Neighbor NeighborsList : Type 0) : Type 0 where
  bytes : Bytes → HiveMindHostApiRequestBody Bytes Neighbor NeighborsList
  get_neighbor : Neighbor → HiveMindHostApiRequestBody Bytes Neighbor NeighborsList
  get_neighbors_list : NeighborsList → HiveMindHostApiRequestBody Bytes Neighbor NeighborsList
  other : (index : ℕ) → HiveMindHostApiRequestBody Bytes Neighbor NeighborsList

pub data HiveMindHostApiResponseBody (NeighborsList Neighbor : Type 0) : Type 0 where
  get_neighbors_list : NeighborsList → HiveMindHostApiResponseBody NeighborsList Neighbor
  get_neighbor : Neighbor → HiveMindHostApiResponseBody NeighborsList Neighbor
  other : (index : ℕ) → HiveMindHostApiResponseBody NeighborsList Neighbor

pub record Pheromones : Type 1 where
  pub MessageDto : Type 0
  pub RequestDto : Type 0
  pub ResponseDto : Type 0
  pub GreetingDto : Type 0
  pub GenericResponseDto : Type 0
  pub GenericResponseStatusDto : Type 0
  pub UserCallTargetDto : Type 0
  pub UserCallRequestDto : Type 0
  pub UserCallResponseDto : Type 0
  pub FunctionListLengthRequestDto : Type 0
  pub FunctionListLengthResponseDto : Type 0
  pub FunctionDescriptionRequestDto : Type 0
  pub FunctionDescriptionResponseDto : Type 0
  pub FunctionDescriptionDto : Type 0
  pub FunctionDescriptionArgumentDto : Type 0
  pub FunctionDescriptionArgumentTypeDto : Type 0
  pub FunctionCallRequestDto : Type 0
  pub FunctionCallResponseDto : Type 0
  pub FunctionCallArgumentDto : Type 0
  pub HiveMindHostApiRequestDto : Type 0
  pub HiveMindHostApiResponseDto : Type 0
  pub BytesDto : Type 0
  pub GetNeighborRequestDto : Type 0
  pub GetNeighborsListRequestDto : Type 0
  pub GetNeighborResponseDto : Type 0
  pub GetNeighborsListResponseDto : Type 0
  pub NeighborPositionDto : Type 0
  -- the C++ `float`
  pub Float : Type 0
  -- Constants and enumerators.
  pub payload_max_size : ℕ
  pub function_call_arguments_max_length : ℕ
  pub status_ok : GenericResponseStatusDto
  pub status_bad_request : GenericResponseStatusDto
  pub status_unknown : GenericResponseStatusDto
  pub host : UserCallTargetDto
  -- Constructors.
  pub message_dto :
      (source_id destination_id : ℕ) → MessageBody RequestDto ResponseDto GreetingDto → MessageDto
  pub default_message_dto : MessageDto
  pub request_dto : (id : ℕ) → RequestBody UserCallRequestDto HiveMindHostApiRequestDto → RequestDto
  pub response_dto :
      (id : ℕ)
      → ResponseBody GenericResponseDto UserCallResponseDto HiveMindHostApiResponseDto
      → ResponseDto
  pub greeting_dto : (id : ℕ) → GreetingDto
  pub generic_response_dto : GenericResponseStatusDto → String → GenericResponseDto
  pub user_call_request_dto :
      (source destination : UserCallTargetDto)
      → UserCallRequestBody FunctionListLengthRequestDto FunctionDescriptionRequestDto
          FunctionCallRequestDto
      → UserCallRequestDto
  pub user_call_response_dto :
      (source destination : UserCallTargetDto)
      → UserCallResponseBody GenericResponseDto FunctionCallResponseDto
          FunctionListLengthResponseDto FunctionDescriptionResponseDto
      → UserCallResponseDto
  pub function_list_length_response_dto : (length : ℕ) → FunctionListLengthResponseDto
  pub function_description_argument_dto :
      String → FunctionDescriptionArgumentTypeDto → FunctionDescriptionArgumentDto
  pub function_description_dto :
      String → List FunctionDescriptionArgumentDto → FunctionDescriptionDto
  pub function_description_response_dto :
      DescriptionBody FunctionDescriptionDto GenericResponseDto → FunctionDescriptionResponseDto
  pub function_call_request_dto : String → List FunctionCallArgumentDto → FunctionCallRequestDto
  pub function_call_response_dto : GenericResponseStatusDto → String → FunctionCallResponseDto
  pub hive_mind_host_api_request_dto :
      HiveMindHostApiRequestBody BytesDto GetNeighborRequestDto GetNeighborsListRequestDto
      → HiveMindHostApiRequestDto
  pub bytes_dto :
      (packet_id packet_number : ℕ)
      → (is_last_packet : Bool) → (payload : List ℕ) → (payload_length : ℕ) → BytesDto
  pub get_neighbor_request_dto : (neighbor_id : ℕ) → GetNeighborRequestDto
  pub get_neighbors_list_request_dto : GetNeighborsListRequestDto
  -- Getters, named after the class where several classes have one of the name.
  pub get_source_id : MessageDto → ℕ
  pub get_destination_id : MessageDto → ℕ
  pub get_message : MessageDto → MessageBody RequestDto ResponseDto GreetingDto
  pub request_id : RequestDto → ℕ
  pub get_request : RequestDto → RequestBody UserCallRequestDto HiveMindHostApiRequestDto
  pub response_id : ResponseDto → ℕ
  pub get_response :
      ResponseDto → ResponseBody GenericResponseDto UserCallResponseDto HiveMindHostApiResponseDto
  pub greeting_id : GreetingDto → ℕ
  pub get_status : GenericResponseDto → GenericResponseStatusDto
  pub get_details : GenericResponseDto → String
  pub user_call_source : UserCallRequestDto → UserCallTargetDto
  pub user_call_request :
      UserCallRequestDto
      → UserCallRequestBody FunctionListLengthRequestDto FunctionDescriptionRequestDto
          FunctionCallRequestDto
  pub user_call_response :
      UserCallResponseDto
      → UserCallResponseBody GenericResponseDto FunctionCallResponseDto
          FunctionListLengthResponseDto FunctionDescriptionResponseDto
  pub get_index : FunctionDescriptionRequestDto → ℕ
  pub get_function_name : FunctionCallRequestDto → String
  pub get_arguments : FunctionCallRequestDto → List FunctionCallArgumentDto
  pub function_call_response : FunctionCallResponseDto → GenericResponseDto
  pub host_api_request :
      HiveMindHostApiRequestDto
      → HiveMindHostApiRequestBody BytesDto GetNeighborRequestDto GetNeighborsListRequestDto
  pub host_api_response :
      HiveMindHostApiResponseDto
      → HiveMindHostApiResponseBody GetNeighborsListResponseDto GetNeighborResponseDto
  pub get_packet_id : BytesDto → ℕ
  pub get_packet_number : BytesDto → ℕ
  pub is_last_packet : BytesDto → Bool
  pub get_payload : BytesDto → List ℕ
  pub get_payload_length : BytesDto → ℕ
  pub get_neighbors : GetNeighborsListResponseDto → List ℕ
  pub get_neighbors_length : GetNeighborsListResponseDto → ℕ
  pub get_neighbor_id : GetNeighborResponseDto → ℕ
  pub get_neighbor_position : GetNeighborResponseDto → Option NeighborPositionDto
  pub get_distance : NeighborPositionDto → Float
  pub get_azimuth : NeighborPositionDto → Float
  pub in_los : NeighborPositionDto → Bool
  -- A getter returns what the constructor was given.
  pub source_id_lem :
      (s d : ℕ) (m : MessageBody RequestDto ResponseDto GreetingDto)
      → get_source_id (message_dto s d m) ≡ s
  pub destination_id_lem :
      (s d : ℕ) (m : MessageBody RequestDto ResponseDto GreetingDto)
      → get_destination_id (message_dto s d m) ≡ d
  pub message_lem :
      (s d : ℕ) (m : MessageBody RequestDto ResponseDto GreetingDto)
      → get_message (message_dto s d m) ≡ m
  pub request_id_lem :
      (i : ℕ) (r : RequestBody UserCallRequestDto HiveMindHostApiRequestDto)
      → request_id (request_dto i r) ≡ i
  pub request_lem :
      (i : ℕ) (r : RequestBody UserCallRequestDto HiveMindHostApiRequestDto)
      → get_request (request_dto i r) ≡ r
  pub response_id_lem :
      (i : ℕ) (r : ResponseBody GenericResponseDto UserCallResponseDto HiveMindHostApiResponseDto)
      → response_id (response_dto i r) ≡ i
  pub response_lem :
      (i : ℕ) (r : ResponseBody GenericResponseDto UserCallResponseDto HiveMindHostApiResponseDto)
      → get_response (response_dto i r) ≡ r
  pub greeting_id_lem : (i : ℕ) → greeting_id (greeting_dto i) ≡ i
  pub user_call_response_lem :
      (s d : UserCallTargetDto)
      (r : UserCallResponseBody GenericResponseDto FunctionCallResponseDto
        FunctionListLengthResponseDto FunctionDescriptionResponseDto)
      → user_call_response (user_call_response_dto s d r) ≡ r
  pub status_lem :
      (s : GenericResponseStatusDto) (t : String) → get_status (generic_response_dto s t) ≡ s
  pub function_call_status_lem :
      (s : GenericResponseStatusDto) (t : String)
      → get_status (function_call_response (function_call_response_dto s t)) ≡ s
  pub host_api_request_lem :
      (r : HiveMindHostApiRequestBody BytesDto GetNeighborRequestDto GetNeighborsListRequestDto)
      → host_api_request (hive_mind_host_api_request_dto r) ≡ r
  pub packet_id_lem :
      (i n : ℕ) (l : Bool) (p : List ℕ) (k : ℕ) → get_packet_id (bytes_dto i n l p k) ≡ i
  pub packet_number_lem :
      (i n : ℕ) (l : Bool) (p : List ℕ) (k : ℕ) → get_packet_number (bytes_dto i n l p k) ≡ n
  pub last_packet_lem :
      (i n : ℕ) (l : Bool) (p : List ℕ) (k : ℕ) → is_last_packet (bytes_dto i n l p k) ≡ l
  -- A payload that fits is copied, as many bytes as the length says.
  pub payload_length_lem :
      (i n : ℕ) (l : Bool) (p : List ℕ) (k : ℕ)
      → k ≤ payload_max_size
      → get_payload_length (bytes_dto i n l p k) ≡ k
  pub payload_lem :
      (i n : ℕ) (l : Bool) (p : List ℕ) (k : ℕ)
      → k ≤ payload_max_size
      → k ≤ length p
      → take k (get_payload (bytes_dto i n l p k)) ≡ take k p
  -- The payload is an array of the full size.
  pub length_payload_lem : (b : BytesDto) → payload_max_size ≤ length (get_payload b)
  pub payload_length_le : (b : BytesDto) → get_payload_length b ≤ payload_max_size
