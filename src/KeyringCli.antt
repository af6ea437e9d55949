-- ===== src/KeyringCli.antt =====
-- examples/keyring-cli/main.go: the example program, over cobra and the streams of the process.
pub mod Success
use common_keyring.Base.{ℕ, String, Option, none, some, List, [], ◌∷◌, ◌≡◌, refl, ◌⊎◌}
use common_keyring.Errors.{GoError, plain, wrap1, Result, Fallible, ok, err, Action}
use common_keyring.Contract.{Context, Keyringer, Bytes}
use common_keyring.Contract.Info.{Info}
use common_keyring.Secure.{Options, Getter, open_keyring}
use common_keyring.Keyring.{Opened, opened, refused, unselected}
use common_keyring.Contract.SelectionErrors.{as_error}
use common_keyring.Filesystem.Steps.{◌>>=◌, ◌>>◌, relabel}

-- `initializer`, of which the errors are values
abbrev pub Initializer : Type 0 → Type 0
Initializer W = Context W → List (Options W) → Action W (Keyringer W × Info)

-- What `Open` returns, with a selection error as an error value.
unfoldable pub opened_result : {W : Type 0} → Opened W → Result (Keyringer W × Info)
opened_result (opened k info) = ok (k, info)
opened_result (refused e) = err e
opened_result (unselected e) = err (as_error e)

-- `Open` of the package `secure`, which `main` gives to `newRootCommand`.
unfoldable pub secure_open : {W : Type 0} → Getter W → Initializer W
unfolding opened_result
secure_open getter ctx options w =
    let (result, w') = open_keyring getter ctx options w in (opened_result result, w')

-- `application`; the keyring is nil until a command runs.
pub record Application (W : Type 0) : Type 0 where
  pub initialize : Initializer W
  pub service : String
  pub keyring : Option (Keyringer W)

-- The streams and the end of the process: `io.ReadAll` of the input, `fmt.Fprintln` and `Write` on
-- the output, `fmt.Fprintln` of an error, and `exitProcess`.
pub record Streams (W : Type 0) : Type 0 where
  pub read_input : Action W Bytes
  pub print_line : String → Action W (Unit {0})
  pub write_output : Bytes → Action W (Unit {0})
  pub print_error : GoError → W → W
  pub exit_process : ℕ → W → W

-- An action on the world and the application, which the commands share.
abbrev pub Step : Type 0 → Type 0
Step W = Action (W × Application W) (Unit {0})

abbrev pub default_service : String
default_service = "keyring-example"

-- A command with its `RunE`, of which the argument is the one that `cobra.ExactArgs(1)` leaves.
pub record Command (W : Type 0) : Type 0 where
  pub name : String
  pub run : Context W → String → Step W

-- The command of `newRootCommand`: the default of its flag `service`, which is a field of the
-- application, its `PersistentPreRunE`, and the commands below it.
pub record Root (W : Type 0) : Type 0 where
  pub flag_default : String
  pub set_flag : String → Application W → Application W
  pub persistent_pre_run : Context W → Step W
  pub commands : List (Command W)

module _ {W : Type 0} where
  -- A call that does not touch the application.
  unfoldable pub lift : {A : Type 0} → Action W A → Action (W × Application W) A
  lift m (w, app) = let (r, w') = m w in (r, (w', app))

  -- The keyring of the application; a call on a nil one panics.
  unfoldable pub with_keyring :
      {A : Type 0} → (Keyringer W → Action W A) → Action (W × Application W) A
  unfolding lift
  with_keyring f (w, app) = elim app.keyring [
    | some k ↦ lift (f k) (w, app)
    | none ↦ (err (plain "nil keyring"), (w, app))
  ]

  unfoldable pub keep_keyring : Result (Keyringer W × Info) → Step W
  keep_keyring (ok (k, info)) (w, app) = (ok tt, (w, record app { keyring = some k }))
  keep_keyring (err e) (w, app) = (err (wrap1 "initialize keyring" e), (w, app))

  -- The `PersistentPreRunE` of `newRootCommand`.
  unfoldable pub pre_run : Context W → Step W
  unfolding keep_keyring
  pre_run ctx (w, app) =
      let (r, w') =
        app.initialize ctx (record { service = app.service; keyringer = none; backends = [] } ∷ [])
          w in
      keep_keyring r (w', app)

  module _ (s : Streams W) where
    -- `newCreateCommand`
    unfoldable pub create_command : Command W
    unfolding lift with_keyring
    create_command = record {
      name = "create";
      run = λ ctx key. do
        secret ← relabel (wrap1 "read secret") (lift s.read_input)
        relabel (wrap1 "create secret") (with_keyring (λ k. k.set ctx key secret))
        lift (s.print_line "secret created");
    }

    -- `newGetCommand`
    unfoldable pub get_command : Command W
    unfolding lift with_keyring
    get_command = record {
      name = "get";
      run = λ ctx key. do
        secret ← relabel (wrap1 "get secret") (with_keyring (λ k. k.get ctx key))
        lift (s.write_output secret);
    }

    -- `newDeleteCommand`
    unfoldable pub delete_command : Command W
    unfolding lift with_keyring
    delete_command = record {
      name = "delete";
      run = λ ctx key. do
        relabel (wrap1 "delete secret") (with_keyring (λ k. k.delete ctx key))
        lift (s.print_line "secret deleted");
    }

    -- `newRootCommand`, with the application that it makes
    unfoldable pub new_root_command : Initializer W → Root W × Application W
    unfolding pre_run create_command get_command delete_command
    new_root_command initialize = (
      record {
        flag_default = default_service;
        set_flag = λ service app. record app { service = service };
        persistent_pre_run = pre_run;
        commands = create_command ∷ get_command ∷ delete_command ∷ [];
      },
      record { initialize = initialize; service = default_service; keyring = none },
    )

    -- The end of `main`.
    unfoldable pub report : Fallible → W → W
    report (ok _) w = w
    report (err e) w = s.exit_process 1 (s.print_error e w)

    -- `main`, with `Execute` of cobra and the getter of the package `secure`
    unfoldable pub main : (Root W → Step W) → Getter W → W → W
    unfolding new_root_command report
    main execute getter w =
        let (root, app) = new_root_command (secure_open getter) in
        let (r, state) = execute root (w, app) in report r state.0
