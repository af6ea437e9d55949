-- ===== src/Tests/Helper.antt =====
-- Concrete uses of what is shown of the package `wsl2`.
use common_keyring.Base.{
  ℕ, ◌+◌, ◌≤◌, ◌<◌, String, true, false, none, some, [], ◌∷◌, ◌==◌, nat_eq, length, codes, ◌≡◌,
  refl, if◌then◌else◌,
}
use common_keyring.Errors.{Category, Sentinel, category, is, same, ok}
use common_keyring.Contract.{Bytes, context_error, Keyringer}
use common_keyring.Wsl2.Protocol.{
  validate_request, has_nul, protocol_id, operation_get, operation_delete, max_secret_bytes,
  max_message_bytes, Request, Reply, Response, Codec, decode_response, backend_name, new_request_id,
}
use common_keyring.Wsl2.Protocol.Responses.{Answers, decode_response-Answers}
use common_keyring.Wsl2.Client.{Client, process_result, succeeded, run, invoke}
use common_keyring.Wsl2.Keyring.{
  portable_error, get, delete, System, new_client, new_keyring, keyringer, is_kernel_release,
}
use common_keyring.Wsl2.Keyring.Probed.{Probed, new_keyring-Probed}
use common_keyring.Base.Bytes.{trim_space, to_lower, contains}
use common_keyring.Wsl2.Keyring.Portable.{expected_category, portable_error-as_error}
use common_keyring.Wsl2.Reports
use common_keyring.Wsl2.Reports.{ProtocolError}
use common_keyring.Wsl2.Keyring.Values.{Received, get-Received, delete-Received}
use common_keyring.LimitedBuffer.{write_all, new_buffer}
use common_keyring.Tests.Selecting.{calm}

abbrev empty_reply : Reply
empty_reply = record {
  helper_version = "";
  supported_protocols = none;
  backend = "";
  secret_b64 = none;
  deleted = none;
  secret = [];
}

abbrev get_reply : Reply
get_reply = record empty_reply { secret_b64 = some "aGk=" }

abbrev delete_reply : Reply
delete_reply = record empty_reply { deleted = some true }

abbrev answer : Reply → Response
answer reply = record {
  protocol = protocol_id;
  request_id = "r1";
  succeeded = true;
  result = some reply;
  error = none;
}

-- Two bytes stand for the reply to a `get`, others for that to a `delete`.
abbrev codec : Codec
codec = record {
  unmarshal = λ output. ok (if length output == 2 then answer get_reply else answer delete_reply);
  decode_string = λ encoded. ok (104 ∷ 105 ∷ []);
  encode_to_string = λ contents. "aGk=";
}

abbrev client : Bytes → Client ℕ
client output = record {
  service = "app";
  helper_path = "/keyring-winbridge.exe";
  timeout = 30;
  run = λ ctx path input w. (process_result (output ∷ []) succeeded, w + 1);
  request_id = λ w. (ok "r1", w + 1);
  encode = λ request. ok (1 ∷ []);
  codec = codec;
  with_timeout = λ ctx time w later. none;
}

abbrev getter : Client ℕ
getter = client (1 ∷ 2 ∷ [])

abbrev deleter : Client ℕ
deleter = client (1 ∷ [])

gets : get getter calm "me" 0 ≡ (ok (104 ∷ 105 ∷ []), 2)
unfolding get invoke process_result decode_response context_error validate_request has_nul write_all
    new_buffer
gets = refl

get-Received_example :
    (reply : Reply) × Received getter calm operation_get "me" none reply 0 2
    × (encoded : String) × (reply.secret_b64 ≡ some encoded)
    × (codec.decode_string encoded ≡ ok (104 ∷ 105 ∷ []))
    × (2 ≤ max_secret_bytes)
get-Received_example = get-Received getter calm "me" 0 2 (104 ∷ 105 ∷ []) gets

deletes : delete deleter calm "me" 0 ≡ (ok tt, 2)
unfolding delete invoke process_result decode_response context_error validate_request has_nul
    write_all new_buffer
deletes = refl

delete-Received_example :
    (reply : Reply) × Received deleter calm operation_delete "me" none reply 0 2
    × (reply.deleted ≡ some true)
delete-Received_example = delete-Received deleter calm "me" 0 2 deletes

abbrev request : Request
request = record {
  protocol = protocol_id;
  request_id = "r1";
  operation = operation_delete;
  service = "app";
  account = "me";
  secret_b64 = none;
}

decodes : decode_response codec (1 ∷ []) request ≡ ok (answer delete_reply)
unfolding decode_response
decodes = refl

decode_response-Answers_example :
    Answers codec request (answer delete_reply) × (0 < 1) × (1 ≤ max_message_bytes)
decode_response-Answers_example =
    decode_response-Answers codec (1 ∷ []) request (answer delete_reply) decodes

abbrev denial : ProtocolError
denial = record {
  code = Reports.code_access_denied;
  message = "the vault is locked";
  retryable = false;
  supported_protocols = [];
}

portable_error-as_error_example :
    ((c : Category)
      → is (portable_error (Reports.as_error denial)) (category c)
        ≡ same (category (expected_category denial.code)) (category c))
    × ((t : Sentinel)
        → is (Reports.as_error denial) t ≡ true
        → is (portable_error (Reports.as_error denial)) t ≡ true)
portable_error-as_error_example = portable_error-as_error denial

-- A system of WSL2 with a helper.
abbrev probe_reply : Reply
probe_reply = record empty_reply {
  helper_version = "1.0";
  supported_protocols = some ("keyring-winbridge/v1" ∷ protocol_id ∷ []);
  backend = backend_name;
}

abbrev system : System ℕ
system = record {
  read_kernel_release = λ w. (ok (codes "5.15.90.1-Microsoft-standard-WSL2"), w + 1);
  look_path = λ w. (ok "/helper.exe", w + 1);
  command = λ ctx path input w. (((1 ∷ 2 ∷ []) ∷ (3 ∷ []) ∷ [], succeeded), w + 1);
  random = λ n w. (ok (171 ∷ 205 ∷ []), w + 1);
  encode = λ request. ok (1 ∷ []);
  codec = record {
    unmarshal = λ output. ok (record (answer probe_reply) { request_id = "abcd" });
    decode_string = λ encoded. ok [];
    encode_to_string = λ contents. "";
  };
  with_timeout = λ ctx time w later. none;
}

helper_keyring : Keyringer ℕ
helper_keyring = keyringer (new_client system "app" "/helper.exe")

opens : new_keyring system calm "app" 0 ≡ (ok helper_keyring, 4)
unfolding helper_keyring new_keyring context_error has_nul is_kernel_release trim_space to_lower
    contains invoke run new_request_id process_result write_all new_buffer validate_request
    decode_response
opens = refl

new_keyring-Probed_example : Probed system calm "app" helper_keyring 0 4
new_keyring-Probed_example = new_keyring-Probed system calm "app" helper_keyring 0 4 opens
