-- ===== src/Wsl2/Keyring/Values.antt =====
-- Where the values of the keyring over the helper come from.
use mathlib.Core.Path.{subst}
use common_keyring.Base.{
  ◌≤◌, String, Bool, true, Option, none, some, length, ◌≡◌, refl, some-eq, pair-eq, sym, ap, ◌∙◌,
}
use common_keyring.Errors.{Result, ok, err, ok-eq}
use common_keyring.Contract.{Context, Bytes}
use common_keyring.Wsl2.Protocol.{
  Request, Reply, Response, operation_get, operation_delete, max_secret_bytes,
}
use common_keyring.Wsl2.Protocol.Responses.{
  IsResult, Answers, success, report, decode_response-Answers,
}
use common_keyring.Wsl2.Client.{Client, build_request, invoke}
use common_keyring.Wsl2.Client.Outcomes.{Invoked, invoke-Invoked}
use common_keyring.Wsl2.Keyring.{use_result, portable_invoke, was_deleted, get, delete}

module _ {W : Type 0} (k : Client W) where
  -- An accepted reply of the helper to a request that it was sent.
  pub record Received (ctx : Context W) (operation account : String) (secret : Option String)
      (reply : Reply) (w w' : W) : Type 0 where
    pub call : Invoked k ctx operation account secret (some reply) w w'
    pub result : IsResult k.codec operation reply

  answers-result :
      (request : Request) (response : Response) (reply : Reply)
      → Answers k.codec request response
      → response.succeeded ≡ true
      → response.result ≡ some reply
      → IsResult k.codec request.operation reply
  answers-result request response reply (success r p i t res n c) s e =
      subst (IsResult k.codec request.operation) (some-eq (sym res ∙ e)) c
  answers-result request response reply (report x p i f res rep m c) s e = cc

  pub invoke-Received :
      (ctx : Context W) (operation account : String) (secret : Option String) (reply : Reply)
      (w w' : W)
      → invoke k ctx operation account secret w ≡ (ok (some reply), w')
      → Received ctx operation account secret reply w w'
  unfolding build_request
  invoke-Received ctx operation account secret reply w w' h =
      let call = invoke-Invoked k ctx operation account secret w w' (some reply) h in
      let request = build_request k call.id operation account secret in
      let x = call.exchanged in
      record {
        call = call;
        result =
            answers-result request x.response reply
              (decode_response-Answers k.codec x.process.output request x.response x.decoded).0
              x.positive x.result;
      }

  use_result-ok :
      {A : Type 0} (f : Reply → Result A) (r : Result (Option Reply)) (a : A)
      → use_result f r ≡ ok a
      → (reply : Reply) × (r ≡ ok (some reply)) × (f reply ≡ ok a)
  unfolding use_result
  use_result-ok f (err e) a h = cc
  use_result-ok f (ok none) a h = cc
  use_result-ok f (ok (some reply)) a h = (reply, refl, h)

  portable_invoke-Received :
      {A : Type 0} (f : Reply → Result A) (ctx : Context W) (operation account : String)
      (secret : Option String) (w w' : W) (a : A)
      → portable_invoke k f ctx operation account secret w ≡ (ok a, w')
      → (reply : Reply) × Received ctx operation account secret reply w w' × (f reply ≡ ok a)
  unfolding portable_invoke
  portable_invoke-Received f ctx operation account secret w w' a h =
      let (reply, r, e) =
        use_result-ok f (invoke k ctx operation account secret w).0 a (ap (λ p. p.0) h) in
      (
        reply,
        invoke-Received ctx operation account secret reply w w' (pair-eq _ r (ap (λ p. p.1) h)),
        e,
      )

  -- A value that `Get` returns is the strictly decoded secret, of at most 2560 bytes, of a reply
  -- that the helper gave, with exit code 0 and in time, to a valid `get` request for this account
  -- with the request's own protocol and id.
  pub get-Received :
      (ctx : Context W) (username : String) (w w' : W) (value : Bytes)
      → get k ctx username w ≡ (ok value, w')
      → (reply : Reply) × Received ctx operation_get username none reply w w'
        × (encoded : String) × (reply.secret_b64 ≡ some encoded)
        × (k.codec.decode_string encoded ≡ ok value)
        × (length value ≤ max_secret_bytes)
  unfolding get
  get-Received ctx username w w' value h =
      let (reply, r, e) =
        portable_invoke-Received (λ reply. ok reply.secret) ctx operation_get username none w w'
          value h in
      let (encoded, s, d, l) = r.result.of_get refl in
      (reply, r, encoded, s, rw (ok-eq e) at d, rw (ok-eq e) at l)

  was_deleted-ok : (o : Option Bool) → was_deleted o ≡ ok tt → o ≡ some true
  unfolding was_deleted
  was_deleted-ok (some true) h = refl
  was_deleted-ok _ h = cc

  -- `Delete` succeeds only if the helper replied, to a valid `delete` request for this account,
  -- that it deleted the credential.
  pub delete-Received :
      (ctx : Context W) (username : String) (w w' : W)
      → delete k ctx username w ≡ (ok tt, w')
      → (reply : Reply) × Received ctx operation_delete username none reply w w'
        × (reply.deleted ≡ some true)
  unfolding delete
  delete-Received ctx username w w' h =
      let (reply, r, e) =
        portable_invoke-Received (λ reply. was_deleted reply.deleted) ctx operation_delete username
          none w w' tt h in
      (reply, r, was_deleted-ok reply.deleted e)
