-- ===== src/Boot/Processes/SamePort.antt =====
-- The two processes read the same command line, each for itself.
use gnutella.Base.{
  ℕ, suc, ◌+◌, ◌-◌, ◌<◌, ◌≡◌, refl, ◌∙◌, sym, Bool, true, false, Bytes, List, [], ◌∷◌, ◌++◌,
  append-nil, Option, none, some, arith, length, All, leb, le→leb,
}
use gnutella.Boot.{
  ServerArgv, ClientArgv, empty_server_argv, empty_client_argv, argv_loop, handle_argv_server,
  handle_argv_client, handle_argv_boot,
}
use gnutella.Boot.Options.{
  ServerOption, first_machine, contact, listen, redirect_stdout, redirect_stderr, word,
  write_options, apply_options, AreValid,
}
use gnutella.Boot.Steps.{get_elem?-length}
use gnutella.Boot.ClientWords.{
  client_body, IsClear, pass_all, all_turns, all_turns-le, all_turns-add, read_options,
}
use gnutella.Boot.Reading.{handle_argv_server-write_options, length-write_options-ge}
use gnutella.Boot.Processes.{
  in_server, in_client, RunServer, RunClient, server_end, server_process, client_end,
  client_process, main,
}

-- The port that the client takes is the one that the server takes.
both_ports :
    (options : List ServerOption) (s : ClientArgv) (t : ServerArgv)
    → s.contact_port ≡ t.listen_port
    → s.error ≡ none
    → t.error ≡ none
    → ((pass_all options s).contact_port ≡ (apply_options options t).listen_port)
      × ((pass_all options s).error ≡ none)
      × ((apply_options options t).error ≡ none)
both_ports [] s t e f g = (e, f, g)
both_ports (first_machine l ∷ options) s t e f g = both_ports options s _ e f g
both_ports (contact l ip port ∷ options) s t e f g = both_ports options s _ e f g
both_ports (listen l port ∷ options) s t e f g = both_ports options _ _ refl f g
both_ports (redirect_stdout file ∷ options) s t e f g = both_ports options s _ e f g
both_ports (redirect_stderr file ∷ options) s t e f g = both_ports options s _ e f g
both_ports (word w ∷ options) s t e f g = both_ports options s t e f g

module _ (v4 v6 : Bytes → Bool) (options : List ServerOption) (valid : All (AreValid v4 v6) options)
    (clear : All IsClear options) where
  client_reads :
      (s : ClientArgv) → handle_argv_client (write_options options) s ≡ some (pass_all options s)
  unfolding handle_argv_client argv_loop
  client_reads s =
      let words : List Bytes = write_options options in
      let k : ℕ = length words - all_turns options 0 in
      let rounds : length words + 1 ≡ all_turns options (suc k) = omega (
        arith,
        all_turns-add options (suc (length words - all_turns options 0)),
        all_turns-le options,
      ) in
      let whole : words ≡ words ++ [] = sym (append-nil words) in
      rw rounds (read_options words v4 v6 [] [] options (suc k) s whole valid clear)
      ∙ ended (all_turns options 0)
    where
      ended :
          (j : ℕ)
          → argv_loop
              (client_body (write_options options))
              (write_options options)
              (suc (length (write_options options) - j))
              (length (write_options options))
              (pass_all options s)
            ≡ some (pass_all options s)
      ended j = rw (get_elem?-length (write_options options), argv_loop) refl

  -- For a command line of at least one valid option for the server, without a request for help,
  -- and with no parameter or word that is an option of the client: the server's process goes on as
  -- `run_server` for some port says, and the client's process as `run_client` for the same port
  -- says.
  pub main-SamePort :
      (run_server : RunServer) (run_client : RunClient)
      → 0 < length options
      → handle_argv_boot (write_options options) ≡ false
      → (first : Bool) × (port ip contact_port : Option Bytes) × (main v4 v6 run_server run_client
            (write_options options)
            in_server
          ≡ server_end (run_server first port ip contact_port))
        × (main v4 v6 run_server run_client (write_options options) in_client
            ≡ client_end (run_client port))
  unfolding main server_process client_process
  main-SamePort run_server run_client pos quiet =
      let server : ServerArgv = apply_options options empty_server_argv in
      let client : ClientArgv = pass_all options empty_client_argv in
      let (same, fine, right) =
        both_ports options empty_client_argv empty_server_argv refl refl refl in
      let words : leb 1 (length (write_options options)) ≡ true = at_least_one options pos in
      let asks : handle_argv_server v4 v6 (write_options options) empty_server_argv ≡ some server =
        handle_argv_server-write_options v4 v6 options valid empty_server_argv in
      (
        server.first_machine,
        server.listen_port,
        server.contact_ip,
        server.contact_port,
        rw (words, quiet, asks, right, main, server_process) refl,
        rw (words, quiet, client_reads empty_client_argv, fine, same, main, client_process) refl,
      )
    where
      at_least_one :
          (os : List ServerOption) → 0 < length os → leb 1 (length (write_options os)) ≡ true
      at_least_one os h =
          le→leb 1 (length (write_options os)) (omega (arith, length-write_options-ge os))
