-- ===== src/KeyringCli/Success.antt =====
-- What a run of examples/keyring-cli/main.go has done at its end.
use mathlib.Core.Path.{subst}
use common_keyring.Base.{
  String, none, some, List, [], ◌∷◌, ◌≡◌, refl, sym, ap, pair-eq, ◌⊎◌, inl, inr,
}
use common_keyring.Errors.{GoError, Result, Fallible, ok, err, Action}
use common_keyring.Contract.{Context, Keyringer, Bytes}
use common_keyring.Contract.Info.{Info}
use common_keyring.Secure.{Options, Getter}
use common_keyring.Filesystem.Steps.{◌>>◌, relabel}
use common_keyring.Filesystem.Steps.Runs.{bind-run, relabel-ok}
use common_keyring.KeyringCli.{
  Initializer, Application, Streams, Step, Command, Root, lift, with_keyring, keep_keyring, pre_run,
  create_command, get_command, delete_command, new_root_command, report, secure_open, main,
}

abbrev pub Member : {W : Type 0} → Command W → List (Command W) → Type 0
Member c [] = ⊥
Member c (d ∷ ds) = (c ≡ d) ⊎ Member c ds

module _ {W : Type 0} (s : Streams W) (ctx : Context W) where
  -- The work of a command with a keyring, from its first step to its last, by the command's name.
  pub data Performed (k : Keyringer W) (key : String) (w w' : W) : String → Type 0 where
    created :
        {secret : Bytes} {w1 w2 : W}
        → s.read_input w ≡ (ok secret, w1)
        → k.set ctx key secret w1 ≡ (ok tt, w2)
        → s.print_line "secret created" w2 ≡ (ok tt, w')
        → Performed k key w w' "create"
    got :
        {secret : Bytes} {w1 : W}
        → k.get ctx key w ≡ (ok secret, w1)
        → s.write_output secret w1 ≡ (ok tt, w')
        → Performed k key w w' "get"
    deleted :
        {w1 : W}
        → k.delete ctx key w ≡ (ok tt, w1)
        → s.print_line "secret deleted" w1 ≡ (ok tt, w')
        → Performed k key w w' "delete"

  -- The process goes on only behind all of the work, and ends with code 1 otherwise, behind the
  -- print of an error.
  pub data Ended (Done : W → Type 0) (w' : W) : Type 0 where
    done : Done w' → Ended Done w'
    reported : (e : GoError) (w1 : W) → w' ≡ s.exit_process 1 (s.print_error e w1) → Ended Done w'

  abbrev Reports : (W → Type 0) → Fallible → W × Application W → Type 0
  Reports Done r state = Ended Done (report s r state.0)

  failure : (Done : W → Type 0) (e : GoError) (w1 : W) → Ended Done (report s (err e) w1)
  unfolding report
  failure Done e w1 = reported e w1 refl

  -- A step on the world that succeeded.
  lift-ok :
      {A : Type 0} (f : GoError → GoError) (m : Action W A) (w : W) (app : Application W) (a : A)
      (state : W × Application W)
      → relabel f (lift m) (w, app) ≡ (ok a, state)
      → m w ≡ (ok a, (m w).1)
  unfolding lift
  lift-ok f m w app a state h =
      pair-eq _ (ap (λ p. p.0) (relabel-ok f (lift m) (w, app) state a h)) refl

  -- The last step of a command.
  last :
      (Done : W → Type 0) (m : Action W (Unit {0})) (w : W) (app : Application W)
      → ((w' : W) → m w ≡ (ok tt, w') → Done w')
      → Reports Done (lift m (w, app)).0 (lift m (w, app)).1
  unfolding lift report
  last Done m w app f = after (m w).0 (m w).1 refl
    where
      after : (r : Fallible) (w' : W) → m w ≡ (r, w') → Reports Done r (w', app)
      after (ok _) w' h = done (f w' h)
      after (err e) w' h = failure Done e w'

  module _ (k : Keyringer W) (key : String) (w : W) (app : Application W) where
    abbrev kept : Application W
    kept = record app { keyring = some k }

    create-Ended :
        let r = (create_command s).run ctx key (w, kept) in
        Reports (λ w'. Performed k key w w' "create") r.0 r.1
    unfolding create_command with_keyring relabel lift report
    create-Ended =
        bind-run (Reports (λ w'. Performed k key w w' "create")) _ _ (w, kept)
          (λ e h. failure _ e _)
          (λ secret h.
            bind-run (Reports (λ w'. Performed k key w w' "create")) _ _ _ (λ e i. failure _ e _)
              (λ _ i.
                last (λ w'. Performed k key w w' "create") (s.print_line "secret created") _ kept
                  (λ w' j.
                    created (lift-ok _ s.read_input w kept secret _ h)
                      (lift-ok _ (k.set ctx key secret) _ kept tt _ i) j)))

    get-Ended :
        let r = (get_command s).run ctx key (w, kept) in
        Reports (λ w'. Performed k key w w' "get") r.0 r.1
    unfolding get_command with_keyring relabel lift report
    get-Ended =
        bind-run (Reports (λ w'. Performed k key w w' "get")) _ _ (w, kept) (λ e h. failure _ e _)
          (λ secret h.
            last (λ w'. Performed k key w w' "get") (s.write_output secret) _ kept
              (λ w' j. got (lift-ok _ (k.get ctx key) w kept secret _ h) j))

    delete-Ended :
        let r = (delete_command s).run ctx key (w, kept) in
        Reports (λ w'. Performed k key w w' "delete") r.0 r.1
    unfolding delete_command with_keyring relabel lift report
    delete-Ended =
        bind-run (Reports (λ w'. Performed k key w w' "delete")) _ _ (w, kept)
          (λ e h. failure _ e _)
          (λ _ h.
            last (λ w'. Performed k key w w' "delete") (s.print_line "secret deleted") _ kept
              (λ w' j. deleted (lift-ok _ (k.delete ctx key) w kept tt _ h) j))

  Ended-map : (P Q : W → Type 0) (w' : W) → ((w1 : W) → P w1 → Q w1) → Ended P w' → Ended Q w'
  Ended-map P Q w' f (done p) = done (f w' p)
  Ended-map P Q w' f (reported e w1 h) = reported e w1 h

  abbrev pub options_of : String → List (Options W)
  options_of service = record { service = service; keyringer = none; backends = [] } ∷ []

  -- The work of a command with the keyring that is initialized for a service.
  pub record Worked (initialize : Initializer W) (name service key : String) (w w' : W)
      : Type 0 where
    pub keyring : Keyringer W
    pub info : Info
    pub w1 : W
    pub initialized : initialize ctx (options_of service) w ≡ (ok (keyring, info), w1)
    pub performed : Performed keyring key w1 w' name

  -- What cobra documents for the arguments of a command: it sets the flag, and calls the
  -- `PersistentPreRunE` of the root before the `RunE`.
  abbrev pub Runs : (Root W → Step W) → Initializer W → Command W → String → String → W → Type 0
  Runs execute initialize c service key w =
      let (root, app) = new_root_command s initialize in
      execute root (w, app)
      ≡ (root.persistent_pre_run ctx >> c.run ctx key) (w, root.set_flag service app)

  -- Each command of the program ends as its own work does.
  command-Ended :
      (c : Command W) (initialize : Initializer W) (k : Keyringer W) (key : String) (w : W)
      (app : Application W)
      → Member c (new_root_command s initialize).0.commands
      → let r = c.run ctx key (w, kept k key w app) in
        Reports (λ w'. Performed k key w w' c.name) r.0 r.1
  unfolding new_root_command create_command get_command delete_command
  command-Ended c initialize k key w app (inl h) = rw h (create-Ended k key w app)
  command-Ended c initialize k key w app (inr (inl h)) = rw h (get-Ended k key w app)
  command-Ended c initialize k key w app (inr (inr (inl h))) = rw h (delete-Ended k key w app)
  command-Ended c initialize k key w app (inr (inr (inr h))) = elim h [ ]

  pre_run-ok :
      (w : W) (app : Application W) (state : W × Application W)
      → pre_run ctx (w, app) ≡ (ok tt, state)
      → (k : Keyringer W) × (info : Info) × (w1 : W) × (app.initialize ctx
            (options_of app.service)
            w
          ≡ (ok (k, info), w1))
        × ((w1, record app { keyring = some k }) ≡ state)
  unfolding pre_run keep_keyring
  pre_run-ok w app state h =
      let got = app.initialize ctx (options_of app.service) w in after got.0 got.1 refl h
    where
      after :
          (r : Result (Keyringer W × Info)) (w1 : W)
          → app.initialize ctx (options_of app.service) w ≡ (r, w1)
          → keep_keyring r (w1, app) ≡ (ok tt, state)
          → (k : Keyringer W) × (info : Info) × (w2 : W) × (app.initialize ctx
                (options_of app.service)
                w
              ≡ (ok (k, info), w2))
            × ((w2, record app { keyring = some k }) ≡ state)
      after (ok (k, info)) w1 e h = (k, info, w1, e, ap (λ p. p.1) h)
      after (err e) w1 i h = cc

  -- Where cobra runs a command of the program with a key and a service, the process has done all the
  -- work of that command, in its order and with the keyring that was initialized for the
  -- service; or it has printed an error and ended with code 1.
  pub main-Ended :
      (execute : Root W → Step W) (getter : Getter W) (c : Command W) (service key : String) (w : W)
      → Member c (new_root_command s (secure_open getter)).0.commands
      → Runs execute (secure_open getter) c service key w
      → Ended (Worked (secure_open getter) c.name service key w) (main s execute getter w)
  unfolding main new_root_command
  main-Ended execute getter c service key w m runs =
      let (root, app) = new_root_command s (secure_open getter) in
      subst (λ x. Reports (Worked (secure_open getter) c.name service key w) x.0 x.1) (sym runs)
        (bind-run (Reports (Worked (secure_open getter) c.name service key w)) (pre_run ctx)
          (λ _. c.run ctx key) (w, record app { service = service }) (λ e h. failure _ e _)
          (λ _ h.
            let (k, info, w1, e, same) = pre_run-ok w (record app { service = service }) _ h in
            subst
              (λ x.
                Reports (Worked (secure_open getter) c.name service key w) (c.run ctx key x).0
                  (c.run ctx key x).1)
              same
              (Ended-map _ _ _
                (λ w' p. record {
                  keyring = k;
                  info = info;
                  w1 = w1;
                  initialized = e;
                  performed = p;
                })
                (command-Ended c (secure_open getter) k key w1 (record app { service = service })
                  m))))
