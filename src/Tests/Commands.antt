-- ===== src/Tests/Commands.antt =====
-- A run of the example program, and a use of what is shown of it.
use common_keyring.Base.{none, some, List, [], ◌∷◌, ◌++◌, ◌≡◌, refl, inl, inr}
use common_keyring.Errors.{plain, ok, err}
use common_keyring.Contract.{Context, context_error, portable_context, Keyringer, Bytes}
use common_keyring.Keyring.{opened, custom_info}
use common_keyring.Secure.{Getter, open_keyring, open_merged, merge_options, overlay}
use common_keyring.Filesystem.Steps.{◌>>=◌, ◌>>◌, relabel}
use common_keyring.KeyringCli.{
  Streams, Step, Command, Root, get_command, new_root_command, secure_open, main, pre_run,
  keep_keyring, lift, with_keyring, report, opened_result,
}
use common_keyring.KeyringCli.Success.{Ended, Worked, main-Ended}

-- The world is what was written to the output.
abbrev streams : Streams Bytes
streams = record {
  read_input = λ w. (ok [], w);
  print_line = λ line w. (ok tt, w ++ 10 ∷ []);
  write_output = λ secret w. (ok tt, w ++ secret);
  print_error = λ e w. w ++ 33 ∷ [];
  exit_process = λ code w. w ++ code ∷ [];
}

abbrev keyring : Keyringer Bytes
keyring = record {
  get = λ ctx key w. (ok (115 ∷ 101 ∷ 99 ∷ []), w);
  set = λ ctx key secret w. (err (plain "read only"), w);
  delete = λ ctx key w. (ok tt, w);
}

abbrev getter : Getter Bytes
getter ctx o w = (opened keyring custom_info, w)

abbrev context : Context Bytes
context = some (λ w. none)

-- The run of the second command
abbrev run_second : List (Command Bytes) → Step Bytes
run_second (c ∷ d ∷ cs) state = d.run context "key" state
run_second cs state = (err (plain "unknown command"), state)

abbrev execute : Root Bytes → Step Bytes
execute root (w, app) =
    (root.persistent_pre_run context >> run_second root.commands) (w, root.set_flag "service" app)

main_run : main streams execute getter (62 ∷ []) ≡ 62 ∷ 115 ∷ 101 ∷ 99 ∷ []
unfolding main new_root_command secure_open open_keyring open_merged merge_options overlay
    context_error portable_context pre_run keep_keyring get_command with_keyring lift report
    opened_result ◌>>=◌ relabel
main_run = refl

main-Ended_example :
    Ended streams context
      (Worked streams context (secure_open getter) "get" "service" "key" (62 ∷ []))
      (main streams execute getter (62 ∷ []))
unfolding get_command new_root_command
main-Ended_example =
    main-Ended streams context execute getter (get_command streams) "service" "key" (62 ∷ [])
      (inr (inl refl)) refl
