-- ===== src/Wsl2/Keyring/Probed.antt =====
-- What is known of a keyring that `New` of secure/wsl2/keyring.go returns.
use common_keyring.Base.{
  arith, String, Bool, true, false, Option, none, some, ◌==◌, string_eq, any, ◌≡◌, ◌≢◌, refl, sym,
  ◌∙◌, ap, pair-eq, eq_iff,
}
use common_keyring.Errors.{wrap1, Result, Fallible, ok, err, ok-eq}
use common_keyring.Contract.{Context, context_error, Bytes, Keyringer}
use common_keyring.Wsl2.Protocol.{
  protocol_id, backend_name, operation_probe, has_nul, items_of, Reply, Request, Response,
}
use common_keyring.Wsl2.Protocol.Responses.{Answers, success, report, decode_response-Answers}
use common_keyring.Wsl2.Client.{Client, invoke, build_request}
use common_keyring.Wsl2.Client.Outcomes.{invoke-Invoked}
use common_keyring.Wsl2.Keyring.{
  System, new_client, is_kernel_release, is_wsl2, look_path_error, portable_error, keyringer, probe,
  probe_helper, find_helper, check_kernel, new_keyring,
}
use common_keyring.Wsl2.Keyring.Values.{Received, invoke-Received}

module _ {W : Type 0} (k : Client W) where
  -- A reply that is accepted is there.
  answered :
      (request : Request) (response : Response) (o : Option Reply)
      → Answers k.codec request response
      → response.succeeded ≡ true
      → response.result ≡ o
      → (reply : Reply) × (o ≡ some reply)
  answered request response o (success r p i t res n c) s e = (r, sym e ∙ res)
  answered request response o (report x p i f res rep m c) s e = cc

  invoke-some :
      (ctx : Context W) (operation account : String) (secret : Option String) (o : Option Reply)
      (w w' : W)
      → invoke k ctx operation account secret w ≡ (ok o, w')
      → (reply : Reply) × (o ≡ some reply)
  unfolding build_request
  invoke-some ctx operation account secret o w w' h =
      let call = invoke-Invoked k ctx operation account secret w w' o h in
      let x = call.exchanged in
      let request = build_request k call.id operation account secret in
      answered request x.response o
        (decode_response-Answers k.codec x.process.output request x.response x.decoded).0 x.positive
        x.result

  probe-ok :
      (ctx : Context W) (w w' : W)
      → probe k ctx w ≡ (ok tt, w')
      → (reply : Reply) × Received k ctx operation_probe "" none reply w w'
  unfolding probe
  probe-ok ctx w w' h = after (invoke k ctx operation_probe "" none w).0 refl (ap (λ p. p.0) h)
    where
      after :
          (r : Result (Option Reply))
          → (invoke k ctx operation_probe "" none w).0 ≡ r
          → (let x : Result (Unit {0}) = elim r [ err e ↦ err e | ok _ ↦ ok tt ] in x ≡ ok tt)
          → (reply : Reply) × Received k ctx operation_probe "" none reply w w'
      after (err e) o e1 = cc
      after (ok o) e e1 =
          let run = pair-eq (invoke k ctx operation_probe "" none w) e (ap (λ p. p.1) h) in
          let (reply, m) = invoke-some ctx operation_probe "" none o w w' run in
          (
            reply,
            invoke-Received k ctx operation_probe "" none reply w w' (run ∙ ap (λ x. (ok x, w')) m),
          )

module _ {W : Type 0} (s : System W) (ctx : Context W) (service : String) where
  -- The way to a keyring: a service that can be sent, a kernel of WSL2, and a helper that was found
  -- there and has answered a probe with its backend and the protocol.
  pub record Probed (k : Keyringer W) (w w' : W) : Type 0 where
    pub live : context_error ctx w ≡ none
    pub named : service ≢ ""
    pub no_nul : has_nul service ≡ false
    pub release : Bytes
    pub read : W
    pub is_read : s.read_kernel_release w ≡ (ok release, read)
    pub wsl2 : is_kernel_release release ≡ true
    pub helper_path : String
    pub found : W
    pub is_found : s.look_path read ≡ (ok helper_path, found)
    pub reply : Reply
    pub received :
        Received (new_client s service helper_path) ctx operation_probe "" none reply found w'
    pub backend : reply.backend ≡ backend_name
    pub spoken : any (λ p. p == protocol_id) (items_of reply.supported_protocols) ≡ true
    pub same : k ≡ keyringer (new_client s service helper_path)

  probe_helper-ok :
      (helper_path : String) (k : Keyringer W) (w w' : W)
      → probe_helper s ctx service helper_path w ≡ (ok k, w')
      → (probe (new_client s service helper_path) ctx w ≡ (ok tt, w'))
        × (k ≡ keyringer (new_client s service helper_path))
  unfolding probe_helper
  probe_helper-ok helper_path k w w' h =
      after (probe (new_client s service helper_path) ctx w).0 refl (ap (λ p. p.0) h)
    where
      after :
          (r : Fallible)
          → (probe (new_client s service helper_path) ctx w).0 ≡ r
          → (let x : Result (Keyringer W) = elim r [
            | err e ↦ err (portable_error (wrap1 "probe keyring-winbridge.exe" e))
            | ok _ ↦ ok (keyringer (new_client s service helper_path))
          ] in
              x ≡ ok k)
          → (probe (new_client s service helper_path) ctx w ≡ (ok tt, w'))
            × (k ≡ keyringer (new_client s service helper_path))
      after (err e) o x = cc
      after (ok _) o x = (pair-eq _ o (ap (λ p. p.1) h), sym (ok-eq x))

  find_helper-ok :
      (k : Keyringer W) (w w' : W)
      → find_helper s ctx service w ≡ (ok k, w')
      → (helper_path : String) × (w1 : W) × (s.look_path w ≡ (ok helper_path, w1))
        × (probe_helper s ctx service helper_path w1 ≡ (ok k, w'))
  unfolding find_helper
  find_helper-ok k w w' h = after (s.look_path w).0 (s.look_path w).1 refl h
    where
      after :
          (r : Result String) (w1 : W)
          → s.look_path w ≡ (r, w1)
          → (let x : Result (Keyringer W) × W = elim r [
            | err e ↦ (err (portable_error (look_path_error e)), w1)
            | ok helper_path ↦ probe_helper s ctx service helper_path w1
          ] in
              x ≡ (ok k, w'))
          → (helper_path : String) × (w1 : W) × (s.look_path w ≡ (ok helper_path, w1))
            × (probe_helper s ctx service helper_path w1 ≡ (ok k, w'))
      after (err e) w1 o x = cc
      after (ok helper_path) w1 o x = (helper_path, w1, o, x)

  is_wsl2-true :
      (w : W)
      → (is_wsl2 s.read_kernel_release w).0 ≡ true
      → (release : Bytes) × (s.read_kernel_release w
          ≡ (ok release, (is_wsl2 s.read_kernel_release w).1))
        × (is_kernel_release release ≡ true)
  unfolding is_wsl2
  is_wsl2-true w h = after (s.read_kernel_release w).0 refl h
    where
      after :
          (r : Result Bytes)
          → (s.read_kernel_release w).0 ≡ r
          → (let x : Bool = elim r [ err _ ↦ false | ok release ↦ is_kernel_release release ] in
              x ≡ true)
          → (release : Bytes) × (s.read_kernel_release w
              ≡ (ok release, (s.read_kernel_release w).1))
            × (is_kernel_release release ≡ true)
      after (err e) o x = cc
      after (ok release) o x = (release, pair-eq _ o refl, x)

  check_kernel-ok :
      (k : Keyringer W) (w w' : W)
      → check_kernel s ctx service w ≡ (ok k, w')
      → ((is_wsl2 s.read_kernel_release w).0 ≡ true)
        × (find_helper s ctx service (is_wsl2 s.read_kernel_release w).1 ≡ (ok k, w'))
  unfolding check_kernel
  check_kernel-ok k w w' h = ground arith

  new_keyring-ok :
      (k : Keyringer W) (w w' : W)
      → new_keyring s ctx service w ≡ (ok k, w')
      → (context_error ctx w ≡ none)
        × (service ≢ "")
        × (has_nul service ≡ false)
        × (check_kernel s ctx service w ≡ (ok k, w'))
  unfolding new_keyring
  new_keyring-ok k w w' h = ground (arith, eq_iff service "")

  -- `New` returns a keyring only for a service that is not empty and has no NUL, where the kernel's
  -- release is that of WSL2, and the helper that it found there answered a valid `probe` request, in
  -- time and with exit code 0, with the Windows backend and the protocol of the request among those
  -- that it supports. The operations of the keyring are those over this helper.
  pub new_keyring-Probed :
      (k : Keyringer W) (w w' : W) → new_keyring s ctx service w ≡ (ok k, w') → Probed k w w'
  new_keyring-Probed k w w' h =
      let (live, named, no_nul, c) = new_keyring-ok k w w' h in
      let (here, f) = check_kernel-ok k w w' c in
      let (release, is_read, wsl2) = is_wsl2-true w here in
      let (path, w2, is_found, p) = find_helper-ok k _ w' f in
      let (done, same) = probe_helper-ok path k w2 w' p in
      let (reply, received) = probe-ok (new_client s service path) ctx w2 w' done in
      let (backend, spoken) = received.result.of_probe refl in
      record {
        live = live;
        named = named;
        no_nul = no_nul;
        release = release;
        read = (is_wsl2 s.read_kernel_release w).1;
        is_read = is_read;
        wsl2 = wsl2;
        helper_path = path;
        found = w2;
        is_found = is_found;
        reply = reply;
        received = received;
        backend = backend;
        spoken = spoken;
        same = same;
      }
