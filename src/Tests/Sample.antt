-- ===== src/Tests/Sample.antt =====
-- A message library for the tests: plain data, with packets of at most 4 bytes.
use hive_mind_bridge.Prelude.{
  ℕ, zero, suc, ◌≤◌, ◌≡◌, refl, ap, Bool, Option, List, [], ◌∷◌, ◌++◌, String, length, take,
  replicate, arith, min, length-append,
}
use hive_mind_bridge.Pheromones.{
  Pheromones, MessageBody, RequestBody, ResponseBody, UserCallRequestBody, UserCallResponseBody,
  DescriptionBody, HiveMindHostApiRequestBody, HiveMindHostApiResponseBody,
}

pub data Status : Type 0 where
  ok bad_request unknown : Status

pub data Target : Type 0 where
  host buzz : Target

pub record Packet : Type 0 where
  pub id : ℕ
  pub number : ℕ
  pub is_last : Bool
  pub payload : List ℕ
  pub payload_length : ℕ

abbrev pub Generic : Type 0
Generic = Status × String

abbrev pub Argument : Type 0
Argument = String × ℕ

abbrev pub DescriptionResponse : Type 0
DescriptionResponse = DescriptionBody (String × List Argument) Generic

abbrev pub UserCall : Type 0
UserCall = Target × Target × UserCallRequestBody ℕ ℕ (String × List ℕ)

abbrev pub UserCallAnswer : Type 0
UserCallAnswer = Target × Target × UserCallResponseBody Generic Generic ℕ DescriptionResponse

abbrev pub ApiRequest : Type 0
ApiRequest = HiveMindHostApiRequestBody Packet ℕ ℕ

abbrev pub Place : Type 0
Place = ℕ × ℕ × Bool

abbrev pub ApiResponse : Type 0
ApiResponse = HiveMindHostApiResponseBody (List ℕ) (ℕ × Option Place)

abbrev pub Request : Type 0
Request = ℕ × RequestBody UserCall ApiRequest

abbrev pub Response : Type 0
Response = ℕ × ResponseBody Generic UserCallAnswer ApiResponse

abbrev pub Message : Type 0
Message = ℕ × ℕ × MessageBody Request Response ℕ

-- The payload array, filled up with zeros.
abbrev array : List ℕ → List ℕ
array payload = payload ++ replicate 4 0

pub take-array : (k : ℕ) (p : List ℕ) → k ≤ length p → take k (array p) ≡ take k p
take-array zero p h = refl
take-array (suc k) [] h = absurd (omega arith)
take-array (suc k) (x ∷ p) h = ap (◌∷◌ x) (take-array k p (omega arith))

abbrev pub sample : Pheromones
sample = record {
  MessageDto = Message;
  RequestDto = Request;
  ResponseDto = Response;
  GreetingDto = ℕ;
  GenericResponseDto = Generic;
  GenericResponseStatusDto = Status;
  UserCallTargetDto = Target;
  UserCallRequestDto = UserCall;
  UserCallResponseDto = UserCallAnswer;
  FunctionListLengthRequestDto = ℕ;
  FunctionListLengthResponseDto = ℕ;
  FunctionDescriptionRequestDto = ℕ;
  FunctionDescriptionResponseDto = DescriptionResponse;
  FunctionDescriptionDto = String × List Argument;
  FunctionDescriptionArgumentDto = Argument;
  FunctionDescriptionArgumentTypeDto = ℕ;
  FunctionCallRequestDto = String × List ℕ;
  FunctionCallResponseDto = Generic;
  FunctionCallArgumentDto = ℕ;
  HiveMindHostApiRequestDto = ApiRequest;
  HiveMindHostApiResponseDto = ApiResponse;
  BytesDto = Packet;
  GetNeighborRequestDto = ℕ;
  GetNeighborsListRequestDto = ℕ;
  GetNeighborResponseDto = ℕ × Option Place;
  GetNeighborsListResponseDto = List ℕ;
  NeighborPositionDto = Place;
  Float = ℕ;
  payload_max_size = 4;
  function_call_arguments_max_length = 2;
  status_ok = Status.ok;
  status_bad_request = Status.bad_request;
  status_unknown = Status.unknown;
  host = Target.host;
  message_dto = λ s d m. (s, d, m);
  default_message_dto = (0, 0, MessageBody.other 0);
  request_dto = λ i r. (i, r);
  response_dto = λ i r. (i, r);
  greeting_dto = λ i. i;
  generic_response_dto = λ s t. (s, t);
  user_call_request_dto = λ s d r. (s, d, r);
  user_call_response_dto = λ s d r. (s, d, r);
  function_list_length_response_dto = λ n. n;
  function_description_argument_dto = λ n t. (n, t);
  function_description_dto = λ n args. (n, args);
  function_description_response_dto = λ r. r;
  function_call_request_dto = λ n args. (n, args);
  function_call_response_dto = λ s t. (s, t);
  hive_mind_host_api_request_dto = λ r. r;
  bytes_dto =
      λ i n l p k. record { id = i; number = n; is_last = l; payload = p; payload_length = k };
  get_neighbor_request_dto = λ n. n;
  get_neighbors_list_request_dto = 0;
  get_source_id = λ m. m.0;
  get_destination_id = λ m. m.1;
  get_message = λ m. m.2;
  request_id = λ r. r.0;
  get_request = λ r. r.1;
  response_id = λ r. r.0;
  get_response = λ r. r.1;
  greeting_id = λ i. i;
  get_status = λ g. g.0;
  get_details = λ g. g.1;
  user_call_source = λ r. r.0;
  user_call_request = λ r. r.2;
  user_call_response = λ r. r.2;
  get_index = λ i. i;
  get_function_name = λ c. c.0;
  get_arguments = λ c. c.1;
  function_call_response = λ r. r;
  host_api_request = λ r. r;
  host_api_response = λ r. r;
  get_packet_id = λ b. b.id;
  get_packet_number = λ b. b.number;
  is_last_packet = λ b. b.is_last;
  get_payload = λ b. array b.payload;
  get_payload_length = λ b. min b.payload_length 4;
  get_neighbors = λ l. l;
  get_neighbors_length = λ l. length l;
  get_neighbor_id = λ r. r.0;
  get_neighbor_position = λ r. r.1;
  get_distance = λ p. p.0;
  get_azimuth = λ p. p.1;
  in_los = λ p. p.2;
  source_id_lem = λ s d m. refl;
  destination_id_lem = λ s d m. refl;
  message_lem = λ s d m. refl;
  request_id_lem = λ i r. refl;
  request_lem = λ i r. refl;
  response_id_lem = λ i r. refl;
  response_lem = λ i r. refl;
  greeting_id_lem = λ i. refl;
  user_call_response_lem = λ s d r. refl;
  status_lem = λ s t. refl;
  function_call_status_lem = λ s t. refl;
  host_api_request_lem = λ r. refl;
  packet_id_lem = λ i n l p k. refl;
  packet_number_lem = λ i n l p k. refl;
  last_packet_lem = λ i n l p k. refl;
  payload_length_lem = λ i n l p k h. omega arith;
  payload_lem = λ i n l p k fits enough. take-array k p enough;
  length_payload_lem = λ b. omega (arith, length-append b.payload (replicate 4 0));
  payload_length_le = λ b. omega arith;
}
