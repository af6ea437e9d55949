-- ===== src/Wsl2/Client/Outcomes.antt =====
-- What a successful exchange with the helper was.
use mathlib.Core.Path.{subst}
use common_keyring.Base.{
  ◌≤◌, String, true, Option, none, some, [], ◌∷◌, ◌++◌, nat_eq, string_eq, length, ltb, arith, ◌≡◌,
  refl, sym, ap, ◌∙◌, inl, inr,
}
use common_keyring.Errors.{GoError, Result, ok, err, refuse-ok, >>=-ok, ok-eq, Result-cases}
use common_keyring.Contract.{Context, Bytes}
use common_keyring.Wsl2.Protocol.{
  Request, Reply, Response, max_message_bytes, validate_request, decode_response,
}
use common_keyring.Wsl2.Client.{
  Client, ProcessResult, conclude, read_reply, end_line, receive, build_request, encode_line,
  exchange, send, new_id, request_with, request_reply, invoke,
}

module _ {W : Type 0} (k : Client W) where
  -- One run of the helper that succeeded: a valid request, sent in one line within the limit, a
  -- process that ended with exit code 0 before its context did, and a response that was accepted.
  pub record Exchanged (ctx : Context W) (request : Request) (reply : Option Reply) (w w' : W)
      : Type 0 where
    pub input : Bytes
    pub process : ProcessResult
    pub response : Response
    pub valid : validate_request request ≡ ok tt
    pub line : encode_line k request ≡ ok input
    pub bounded : length input ≤ max_message_bytes
    pub ran : k.run (some (k.with_timeout ctx k.timeout w)) k.helper_path input w ≡ (process, w')
    pub in_time : k.with_timeout ctx k.timeout w w' ≡ none
    pub intact : process.failed ≡ none
    pub decoded : decode_response k.codec process.output request ≡ ok response
    pub positive : response.succeeded ≡ true
    pub code : process.exit_code ≡ some 0
    pub result : response.result ≡ reply

  conclude-ok :
      (process : ProcessResult) (response : Response) (reply : Option Reply)
      → conclude process response ≡ ok reply
      → (response.succeeded ≡ true) × (process.exit_code ≡ some 0) × (response.result ≡ reply)
  unfolding conclude
  conclude-ok process response reply h = ground arith

  read_reply-ok :
      (request : Request) (process : ProcessResult) (failed : Option GoError) (reply : Option Reply)
      → read_reply k.codec request process failed ≡ ok reply
      → (response : Response) × (failed ≡ none)
        × (decode_response k.codec process.output request ≡ ok response)
        × (conclude process response ≡ ok reply)
  unfolding read_reply
  read_reply-ok request process (some e) reply h = cc
  read_reply-ok request process none reply h =
      let (response, d, c) = >>=-ok (decode_response k.codec process.output request) _ h in
      (response, refl, d, c)

  receive-ok :
      (request : Request) (process : ProcessResult) (ctx_error : Option GoError)
      (reply : Option Reply)
      → receive k.codec request process ctx_error ≡ ok reply
      → (ctx_error ≡ none) × (read_reply k.codec request process process.failed ≡ ok reply)
  unfolding receive
  receive-ok request process (some e) reply h = ground arith
  receive-ok request process none reply h = (refl, h)

  end_line-ok :
      (r : Result Bytes) (input : Bytes) → end_line r ≡ ok input → length input ≤ max_message_bytes
  unfolding end_line
  end_line-ok (err e) input h = cc
  end_line-ok (ok encoded) input h =
      let (t, e) = refuse-ok (ltb max_message_bytes (length (encoded ++ 10 ∷ []))) _ _ h in
      subst (λ l. length l ≤ max_message_bytes) (ok-eq e) (ground arith)

  encode_line-ok :
      (request : Request) (input : Bytes)
      → encode_line k request ≡ ok input
      → (validate_request request ≡ ok tt) × (length input ≤ max_message_bytes)
  unfolding encode_line
  encode_line-ok request input h =
      let (u, v, e) = >>=-ok (validate_request request) _ h in
      (v, end_line-ok (k.encode request) input e)

  exchange-Exchanged :
      (ctx : Context W) (request : Request) (input : Bytes) (w w' : W) (reply : Option Reply)
      → encode_line k request ≡ ok input
      → exchange k ctx request input w ≡ (ok reply, w')
      → Exchanged ctx request reply w w'
  unfolding exchange
  exchange-Exchanged ctx request input w w' reply l h =
      let process = (k.run (some (k.with_timeout ctx k.timeout w)) k.helper_path input w).0 in
      let e : (k.run (some (k.with_timeout ctx k.timeout w)) k.helper_path input w).1 ≡ w' =
        ap (λ p. p.1) h in
      let (t, r) = receive-ok request process _ reply (ap (λ p. p.0) h) in
      let (response, f, d, c) = read_reply-ok request process _ reply r in
      let (positive, code, result) = conclude-ok process response reply c in
      let (valid, bounded) = encode_line-ok request input l in
      record {
        input = input;
        process = process;
        response = response;
        valid = valid;
        line = l;
        bounded = bounded;
        ran = ap (λ x. (process, x)) e;
        in_time = rw (← e) t;
        intact = f;
        decoded = d;
        positive = positive;
        code = code;
        result = result;
      }

  send-ok :
      (ctx : Context W) (request : Request) (input : Bytes) (w : W)
      → encode_line k request ≡ ok input
      → send k ctx request w ≡ exchange k ctx request input w
  unfolding send
  send-ok ctx request input w l = rw (l, send)

  send-err :
      (ctx : Context W) (request : Request) (e : GoError) (w : W)
      → encode_line k request ≡ err e
      → send k ctx request w ≡ (err e, w)
  unfolding send
  send-err ctx request e w l = rw (l, send)

  send-Exchanged :
      (ctx : Context W) (request : Request) (w w' : W) (reply : Option Reply)
      → send k ctx request w ≡ (ok reply, w')
      → Exchanged ctx request reply w w'
  send-Exchanged ctx request w w' reply h = elim (Result-cases (encode_line k request)) [
    | inl (input, l) ↦
        exchange-Exchanged ctx request input w w' reply l (sym (send-ok ctx request input w l) ∙ h)
    | inr (e, l) ↦ cc (send-err ctx request e w l)
  ]

  -- A successful call of the helper: an id that is not empty, and the exchange of its request.
  pub record Invoked (ctx : Context W) (operation account : String) (secret : Option String)
      (reply : Option Reply) (w w' : W) : Type 0 where
    pub id : String
    pub started : W
    pub new : new_id k w ≡ (ok id, started)
    pub exchanged : Exchanged ctx (build_request k id operation account secret) reply started w'

  request_with-ok :
      (ctx : Context W) (operation account : String) (secret : Option String) (r : Result String)
      (w w' : W) (reply : Option Reply)
      → request_with k ctx operation account secret r w ≡ (ok reply, w')
      → (id : String) × (r ≡ ok id)
        × (send k ctx (build_request k id operation account secret) w ≡ (ok reply, w'))
  unfolding request_with
  request_with-ok ctx operation account secret (err e) w w' reply h = cc
  request_with-ok ctx operation account secret (ok id) w w' reply h = (id, refl, h)

  request_reply-ok :
      (ctx : Context W) (operation account : String) (secret : Option String) (w w' : W)
      (reply : Option Reply)
      → request_reply k ctx operation account secret w ≡ (ok reply, w')
      → (id : String) × (new_id k w ≡ (ok id, (new_id k w).1))
        × (send k ctx (build_request k id operation account secret) (new_id k w).1 ≡ (ok reply, w'))
  unfolding request_reply
  request_reply-ok ctx operation account secret w w' reply h =
      let (id, e, s) = request_with-ok ctx operation account secret (new_id k w).0 _ w' reply h in
      (id, ap (λ r. (r, (new_id k w).1)) e, s)

  invoke-ok :
      (ctx : Context W) (operation account : String) (secret : Option String) (w w' : W)
      (reply : Option Reply)
      → invoke k ctx operation account secret w ≡ (ok reply, w')
      → request_reply k ctx operation account secret w ≡ (ok reply, w')
  unfolding invoke
  invoke-ok ctx operation account secret w w' reply h = ground arith

  pub invoke-Invoked :
      (ctx : Context W) (operation account : String) (secret : Option String) (w w' : W)
      (reply : Option Reply)
      → invoke k ctx operation account secret w ≡ (ok reply, w')
      → Invoked ctx operation account secret reply w w'
  invoke-Invoked ctx operation account secret w w' reply h =
      let (id, n, s) =
        request_reply-ok ctx operation account secret w w' reply
          (invoke-ok ctx operation account secret w w' reply h) in
      record {
        id = id;
        started = (new_id k w).1;
        new = n;
        exchanged = send-Exchanged ctx _ _ w' reply s;
      }
