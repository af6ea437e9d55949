-- ===== src/Wsl2/Protocol/Responses.antt =====
-- What an accepted response is.
use mathlib.Core.Path.{subst}
use common_keyring.Base.{
  ◌≤◌, ◌<◌, String, true, false, ◌||◌, not, Option, none, some, ◌==◌, string_eq, nat_eq, length,
  ltb, any, arith, eq_iff, ◌≡◌, ◌≢◌, refl, ap, ◌∙◌, inl, inr, not-false, if-cases,
}
use common_keyring.Errors.{Result, ok, err, refuse-ok, >>=-ok, if-err-ok}
use common_keyring.Contract.{Bytes}
use common_keyring.Wsl2.Reports.{ProtocolError, sentinel_for_code}
use common_keyring.Wsl2.Protocol.{
  protocol_id, backend_name, operation_probe, operation_get, operation_delete, max_secret_bytes,
  max_message_bytes, Request, Reply, Response, Codec, is_some, items_of, decode_secret,
  validate_result, valid_error_code, validate_protocol_error, accept_success, accept_failure,
  accept_response, decoded, decode_response,
}

module _ (c : Codec) where
  -- What a result of each operation carries.
  pub record IsResult (operation : String) (r : Reply) : Type 0 where
    pub of_probe :
        operation ≡ operation_probe
        → (r.backend ≡ backend_name)
          × (any (λ p. p == protocol_id) (items_of r.supported_protocols) ≡ true)
    pub of_get :
        operation ≡ operation_get
        → (encoded : String) × (r.secret_b64 ≡ some encoded)
          × (c.decode_string encoded ≡ ok r.secret)
          × (length r.secret ≤ max_secret_bytes)
    pub of_delete : operation ≡ operation_delete → is_some r.deleted ≡ true

  decode_secret-ok :
      (r : Reply) (o : Option String) (r' : Reply)
      → decode_secret c r o ≡ ok r'
      → (encoded : String) × (o ≡ some encoded)
        × (c.decode_string encoded ≡ ok r'.secret)
        × (length r'.secret ≤ max_secret_bytes)
        × (r'.secret_b64 ≡ r.secret_b64)
  unfolding decode_secret
  decode_secret-ok r none r' h = cc
  decode_secret-ok r (some encoded) r' h = (encoded, refl, ground arith, ground arith, ground arith)

  of_probe-ok :
      (r r' : Reply)
      → validate_result c operation_probe r ≡ ok r'
      → (r'.backend ≡ backend_name)
        × (any (λ p. p == protocol_id) (items_of r'.supported_protocols) ≡ true)
  unfolding validate_result
  of_probe-ok r r' h = ground (arith, eq_iff r.backend backend_name)

  of_get-ok :
      (r r' : Reply)
      → validate_result c operation_get r ≡ ok r'
      → (encoded : String) × (r'.secret_b64 ≡ some encoded)
        × (c.decode_string encoded ≡ ok r'.secret)
        × (length r'.secret ≤ max_secret_bytes)
  unfolding validate_result
  of_get-ok r r' h =
      let (_, k) = if-err-ok _ _ (decode_secret c r r.secret_b64) h in
      let (encoded, p, d, l, s) = decode_secret-ok r r.secret_b64 r' k in (encoded, s ∙ p, d, l)

  of_delete-ok :
      (r r' : Reply) → validate_result c operation_delete r ≡ ok r' → is_some r'.deleted ≡ true
  unfolding validate_result
  of_delete-ok r r' h = ground arith

  validate_result-ok :
      (operation : String) (r r' : Reply)
      → validate_result c operation r ≡ ok r'
      → IsResult operation r'
  validate_result-ok operation r r' h = record {
    of_probe = λ e. of_probe-ok r r' (subst (λ o. validate_result c o r ≡ ok r') e h);
    of_get = λ e. of_get-ok r r' (subst (λ o. validate_result c o r ≡ ok r') e h);
    of_delete = λ e. of_delete-ok r r' (subst (λ o. validate_result c o r ≡ ok r') e h);
  }

  -- A response that answers a request: its envelope is the request's, and it has a result of the
  -- operation and no error, or no result and a report with a message and a known code.
  pub data Answers (request : Request) (response : Response) : Type 0 where
    success :
        (r : Reply)
        → response.protocol ≡ request.protocol
        → response.request_id ≡ request.request_id
        → response.succeeded ≡ true
        → response.result ≡ some r
        → response.error ≡ none
        → IsResult request.operation r
        → Answers request response
    report :
        (e : ProtocolError)
        → response.protocol ≡ request.protocol
        → response.request_id ≡ request.request_id
        → response.succeeded ≡ false
        → response.result ≡ none
        → response.error ≡ some e
        → e.message ≢ ""
        → is_some (sentinel_for_code e.code) ≡ true
        → Answers request response

  validate_protocol_error-ok :
      (e : ProtocolError)
      → validate_protocol_error e ≡ ok tt
      → (e.message ≢ "") × (is_some (sentinel_for_code e.code) ≡ true)
  unfolding validate_protocol_error
  validate_protocol_error-ok e h =
      let (a, k) = refuse-ok (e.code == "" || e.message == "") _ _ h in
      let (b, _) = refuse-ok (not (valid_error_code e.code)) _ _ k in
      (ground (arith, eq_iff e.message ""), ground arith)

  accept_success-ok :
      (response : Response) (operation : String) (o : Option Reply) (e : Option ProtocolError)
      (response' : Response)
      → accept_success c response operation o e ≡ ok response'
      → (r : Reply) × (e ≡ none)
        × IsResult operation r
        × (response' ≡ record response { result = some r })
  unfolding accept_success
  accept_success-ok response operation (some r) none response' h =
      let (r', v, p) = >>=-ok (validate_result c operation r) _ h in
      (r', refl, validate_result-ok operation r r' v, cc)
  accept_success-ok response operation none _ response' h = cc
  accept_success-ok response operation (some r) (some e) response' h = cc

  accept_failure-ok :
      (response : Response) (o : Option Reply) (e : Option ProtocolError) (response' : Response)
      → accept_failure c response o e ≡ ok response'
      → (x : ProtocolError) × (o ≡ none)
        × (e ≡ some x)
        × (validate_protocol_error x ≡ ok tt)
        × (response' ≡ response)
  unfolding accept_failure
  accept_failure-ok response none (some e) response' h =
      let (u, v, p) = >>=-ok (validate_protocol_error e) _ h in (e, refl, refl, v ∙ ap ok refl, cc)
  accept_failure-ok response none none response' h = cc
  accept_failure-ok response (some r) _ response' h = cc

  accept_response-Answers :
      (request : Request) (response response' : Response)
      → accept_response c request response ≡ ok response'
      → Answers request response'
  unfolding accept_response
  accept_response-Answers request response response' h =
      let (p, k) = refuse-ok (not (response.protocol == request.protocol)) _ _ h in
      let (i, l) = refuse-ok (not (response.request_id == request.request_id)) _ _ k in
      let pe = (eq_iff response.protocol request.protocol).0 (not-false _ p) in
      let ie = (eq_iff response.request_id request.request_id).0 (not-false _ i) in
      elim (if-cases response.succeeded _ _ (ok response') l) [
        | inl (t, a) ↦
            let (r, none_error, result, e) =
              accept_success-ok response request.operation response.result response.error response'
                a in
            rw e (success r pe ie t refl none_error result)
        | inr (t, a) ↦
            let (x, no_result, reported, v, e) =
              accept_failure-ok response response.result response.error response' a in
            let (message, code) = validate_protocol_error-ok x v in
            rw e (report x pe ie t no_result reported message code)
      ]

  decoded-Answers :
      (request : Request) (r : Result Response) (response : Response)
      → decoded c request r ≡ ok response
      → Answers request response
  unfolding decoded
  decoded-Answers request (ok r) response h = accept_response-Answers request r response h
  decoded-Answers request (err e) response h = cc

  -- A response that `decodeResponse` accepts answers the request, and its output was neither
  -- empty nor beyond the limit.
  pub decode_response-Answers :
      (output : Bytes) (request : Request) (response : Response)
      → decode_response c output request ≡ ok response
      → Answers request response × (0 < length output) × (length output ≤ max_message_bytes)
  unfolding decode_response
  decode_response-Answers output request response h =
      let (a, k) = refuse-ok (length output == 0) _ _ h in
      let (b, l) = refuse-ok (ltb max_message_bytes (length output)) _ _ k in
      (decoded-Answers request (c.unmarshal output) response l, ground arith, ground arith)
