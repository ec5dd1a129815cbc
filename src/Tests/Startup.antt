-- ===== src/Tests/Startup.antt =====
-- The theorems on the command line and on joining the network, on small inputs.
use gnutella.Base.{
  ◌-◌, ◌/◌, ◌≡◌, ◌==◌, if◌then◌else◌, refl, Bool, true, false, Bytes, codes, List, [], ◌∷◌, ◌++◌,
  Option, none, some, arith, str_eq, All,
}
use gnutella.Net.{Os, Net, fault, dangling, overflow}
use gnutella.Wire.{
  smsg_join, smsg_neighbours, read_machine, read_string, read_byte, read_bytes, c_str,
}
use gnutella.Util.{int_to_string, digits, elapsed_time_since}
use gnutella.Util.Clock.{instant, elapsed_time_since-instant}
use gnutella.Util.Ports.{
  scan_digits, skip_blanks, scan_sign, clamp_long, scan_number, strtol, check_port, check_ip,
}
use gnutella.Util.Ports.Zeros.{zeros}
use gnutella.Boot.{
  few_for_listening_port, ServerArgv, ClientArgv, empty_server_argv, empty_client_argv,
  handle_argv_server, handle_argv_client, handle_argv_boot, server_flag, client_flag, spelled,
}
use gnutella.Boot.Options.{
  ServerOption, word, listen, contact, write_options, apply_options, AreValid, listen_alone,
  write_refused,
}
use gnutella.Boot.Total.{handle_argv_returns}
use gnutella.Boot.Reading.{handle_argv_server-write_options, handle_argv_server-write_refused}
use gnutella.Boot.Processes.{
  in_server, in_client, RunServer, RunClient, server_end, client_end, main,
}
use gnutella.Boot.ClientWords.{IsClear}
use gnutella.Boot.Processes.SamePort.{main-SamePort}
use gnutella.Client.Run.{success}
use gnutella.Server.State.{Server, unset}
use gnutella.Server.Main.{run_server, initial_server}
use gnutella.Server.Main.Fresh.{run_server-dangling, run_server-overflow}
use gnutella.Tests.{ip_text, os_example, net_example, server_example}

abbrev v4 : Bytes → Bool
v4 ip = false

abbrev v6 : Bytes → Bool
v6 ip = true

-- `./network -l 10005 --contact :: 10006`
abbrev options : List ServerOption
options =
    word (codes "./network")
    ∷ listen false (codes "10005")
    ∷ contact true ip_text (codes "10006")
    ∷ []

options-AreValid : All (AreValid v4 v6) options
unfolding server_flag spelled str_eq check_ip check_port strtol skip_blanks scan_sign scan_number
    scan_digits clamp_long
options-AreValid = (refl, (refl, ((refl, refl), tt)))

options-AreClear : All IsClear options
unfolding client_flag spelled str_eq
options-AreClear = (refl, (tt, ((refl, (refl, tt)), tt)))

handle_argv_server-write_options_example :
    handle_argv_server v4 v6 (write_options options) empty_server_argv
    ≡ some (record empty_server_argv {
      contact_ip = some ip_text;
      contact_port = some (codes "10006");
      listen_port = some (codes "10005");
    })
handle_argv_server-write_options_example =
    handle_argv_server-write_options v4 v6 options options-AreValid empty_server_argv

handle_argv_server-write_refused_example :
    handle_argv_server v4 v6
      (write_options options ++ write_refused (listen_alone true))
      empty_server_argv
    ≡ some
        (record (apply_options options empty_server_argv) { error = some few_for_listening_port })
handle_argv_server-write_refused_example =
    handle_argv_server-write_refused v4 v6 options options-AreValid empty_server_argv
      (listen_alone true) tt

abbrev run_server_example : RunServer
run_server_example first port ip contact_port = none

abbrev run_client_example : RunClient
run_client_example port = some success

main-SamePort_example :
    (first : Bool) × (port ip contact_port : Option Bytes) × (main v4 v6 run_server_example
        run_client_example
        (write_options options)
        in_server
      ≡ server_end (run_server_example first port ip contact_port))
    × (main v4 v6 run_server_example run_client_example (write_options options) in_client
        ≡ client_end (run_client_example port))
main-SamePort_example =
    main-SamePort v4 v6 options options-AreValid options-AreClear run_server_example
      run_client_example (omega arith)
      (unfold handle_argv_boot in unfold spelled in unfold str_eq in refl)

handle_argv_returns_example :
    ((r : ServerArgv) × (handle_argv_server v4 v6
          (codes "./network" ∷ codes "-c" ∷ [])
          empty_server_argv
        ≡ some r))
    × ((r : ClientArgv) × (handle_argv_client
            (codes "./network" ∷ codes "-c" ∷ [])
            empty_client_argv
          ≡ some r))
handle_argv_returns_example =
    handle_argv_returns v4 v6 (codes "./network" ∷ codes "-c" ∷ []) empty_server_argv
      empty_client_argv

elapsed_time_since-instant_example :
    elapsed_time_since 1 999000000 3 1000000 ≡ (instant 3 1000000 - instant 1 999000000) / 1000000
elapsed_time_since-instant_example =
    elapsed_time_since-instant 1 999000000 3 1000000 (omega arith) (omega arith) (omega arith)
      (omega arith)

-- Every connection succeeds, on socket 6.
abbrev os_connected : Os
os_connected = record os_example { connect = λ t ip port. some 6 }

-- The contact lists one machine, or none.
abbrev net_listed : Net
net_listed = record net_example { inbox = λ fd. smsg_neighbours ∷ 1 ∷ 2 ∷ 58 ∷ 58 ∷ 1 ∷ 57 ∷ [] }

abbrev net_alone : Net
net_alone = record net_example { inbox = λ fd. smsg_neighbours ∷ 0 ∷ [] }

run_server-dangling_example :
    run_server os_connected ip_text (codes "10000") false none none 4 (initial_server 3) net_listed
    ≡ fault dangling
run_server-dangling_example =
    run_server-dangling os_connected ip_text (codes "10000") 4 3 6 net_listed
      (2 ∷ 58 ∷ 58 ∷ 1 ∷ 57 ∷ []) none none 0 (ip_text, codes "9") [] refl refl
      (unfold read_machine in
        unfold read_string in unfold read_byte in unfold read_bytes in unfold c_str in refl)

run_server-overflow_example :
    (check_port (zeros 1 ++ int_to_string 10000) ≡ true)
    × (run_server os_connected ip_text
          (codes "10000")
          false
          none
          (some (zeros 1 ++ int_to_string 10000))
          4
          (initial_server 3)
          net_alone
        ≡ fault overflow)
run_server-overflow_example =
    run_server-overflow os_connected ip_text (codes "10000") 4 3 6 net_alone [] none 1 10000
      (omega arith) (omega arith) (unfold int_to_string in unfold digits in omega arith) refl refl

-- The first connection is on socket 6, the second on socket 7.
abbrev pub os_twice : Os
os_twice = record os_example { connect = λ t ip port. if t == 0 then some 6 else some 7 }

-- The contact lists no machine, and says yes on the second socket; its port is 8.
abbrev net_welcome : Net
net_welcome = record net_example {
  inbox = λ fd. if fd == 6 then smsg_neighbours ∷ 0 ∷ [] else smsg_join ∷ 1 ∷ 1 ∷ 56 ∷ [];
}

abbrev pub server_fresh : Server
server_fresh = record server_example { self_ip = unset }
