-- ===== src/Boot.antt =====
-- main.c: the options of the command line in the three phases, and the two processes of `main`.
pub mod Total
pub mod Steps
pub mod ClientWords
pub mod Options
pub mod Reading
pub mod Processes
use gnutella.Base.{
  ℕ, zero, suc, ◌+◌, Bool, true, false, not, ◌&&◌, ◌||◌, Bytes, codes, List, [], ◌∷◌, Option, none,
  some, length, get_elem?, if◌then◌else◌, leb, str_eq,
}
use gnutella.Util.Ports.{check_port, check_ip}

-- The texts that `set_string` puts into `error`.
pub data ArgvError : Type 0 where
  few_for_contact_point invalid_contact_ip invalid_contact_port : ArgvError
  few_for_listening_port invalid_listening_port : ArgvError
  few_for_stdout_server few_for_stderr_server : ArgvError
  few_for_internal_port invalid_internal_port : ArgvError
  few_for_stdout_client few_for_stderr_client : ArgvError

-- `server_argv_t`, all of it zero at first; NULL is `none`. The two new descriptors are in `main`.
pub record ServerArgv : Type 0 where
  pub first_machine : Bool
  pub contact_ip : Option Bytes
  pub contact_port : Option Bytes
  pub listen_port : Option Bytes
  pub stdout_redirect : Option Bytes
  pub stderr_redirect : Option Bytes
  pub error : Option ArgvError

-- `client_argv_t`
pub record ClientArgv : Type 0 where
  pub contact_port : Option Bytes
  pub stdout_redirect : Option Bytes
  pub stderr_redirect : Option Bytes
  pub error : Option ArgvError

abbrev pub empty_server_argv : ServerArgv
empty_server_argv = record {
  first_machine = false;
  contact_ip = none;
  contact_port = none;
  listen_port = none;
  stdout_redirect = none;
  stderr_redirect = none;
  error = none;
}

abbrev pub empty_client_argv : ClientArgv
empty_client_argv = record {
  contact_port = none;
  stdout_redirect = none;
  stderr_redirect = none;
  error = none;
}

-- What the body of the loop does with the option at `i`: it goes on behind the option, returns, or
-- has read `argv` past its end.
pub data Advance (A : Type 0) : Type 0 where
  proceed : (increment : ℕ) → A → Advance A
  give_up : A → Advance A
  overrun : Advance A

-- `strcmp(value, LONG) == 0 || strcmp(value, SHORT) == 0`
unfoldable pub spelled : (long short value : Bytes) → Bool
spelled long short value = str_eq value long || str_eq value short

-- The options of the server, in the order of the tests.
pub data ServerFlag : Type 0 where
  first_machine_flag contact_flag listen_flag stdout_flag stderr_flag other_flag : ServerFlag

unfoldable pub server_flag : Bytes → ServerFlag
unfolding spelled
server_flag value =
    if spelled (codes "--first") (codes "-f") value
    then first_machine_flag
    else if spelled (codes "--contact") (codes "-c") value
    then contact_flag
    else if spelled (codes "--listen") (codes "-l") value
    then listen_flag
    else if str_eq value (codes "-sout")
    then stdout_flag
    else if str_eq value (codes "-serr")
    then stderr_flag
    else other_flag

-- An option with one parameter: `few` if it is missing; else `use` decides.
abbrev pub with_one : {A : Type 0} → List Bytes → ℕ → A → (Bytes → Advance A) → Advance A
with_one argv i few consume =
    if leb (length argv) (i + 1)
    then give_up few
    else elim (get_elem? argv (i + 1)) [ none ↦ overrun | some a ↦ consume a ]

-- `set_string` on a field, unless the text is not a port.
abbrev pub if_port : {A : Type 0} → Bytes → A → A → Advance A
if_port port invalid valid = if not (check_port port) then give_up invalid else proceed 2 valid

-- The parameter is what `inet_pton` accepts.
module _ (v4 v6 : Bytes → Bool) where
  abbrev pub contact_point : Bytes → Bytes → ServerArgv → Advance ServerArgv
  contact_point ip port infos =
      if not (check_ip v4 v6 ip)
      then give_up (record infos { error = some invalid_contact_ip })
      else if not (check_port port)
      then give_up (record infos { error = some invalid_contact_port })
      else proceed 3 (record infos { contact_ip = some ip; contact_port = some port })

  -- The body of the loop of `handle_argv_server`.
  unfoldable pub server_option : List Bytes → ℕ → ServerArgv → ServerFlag → Advance ServerArgv
  server_option argv i infos first_machine_flag = proceed 1 (record infos { first_machine = true })
  server_option argv i infos contact_flag =
      if leb (length argv) (i + 2)
      then give_up (record infos { error = some few_for_contact_point })
      else elim (get_elem? argv (i + 1)) [
        | none ↦ overrun
        | some ip ↦ elim (get_elem? argv (i + 2)) [
          | none ↦ overrun
          | some port ↦ contact_point ip port infos
        ]
      ]
  server_option argv i infos listen_flag =
      with_one argv i (record infos { error = some few_for_listening_port })
        λ port.
          if_port port (record infos { error = some invalid_listening_port })
            (record infos { listen_port = some port })
  server_option argv i infos stdout_flag =
      with_one argv i (record infos { error = some few_for_stdout_server })
        λ file. proceed 2 (record infos { stdout_redirect = some file })
  server_option argv i infos stderr_flag =
      with_one argv i (record infos { error = some few_for_stderr_server })
        λ file. proceed 2 (record infos { stderr_redirect = some file })
  server_option argv i infos other_flag = proceed 1 infos

-- The options of the client.
pub data ClientFlag : Type 0 where
  port_flag client_stdout_flag client_stderr_flag unknown_flag : ClientFlag

unfoldable pub client_flag : Bytes → ClientFlag
unfolding spelled
client_flag value =
    if spelled (codes "--listen") (codes "-l") value
    then port_flag
    else if str_eq value (codes "-cout")
    then client_stdout_flag
    else if str_eq value (codes "-cerr")
    then client_stderr_flag
    else unknown_flag

-- The body of the loop of `handle_argv_client`.
unfoldable pub client_option : List Bytes → ℕ → ClientArgv → ClientFlag → Advance ClientArgv
client_option argv i infos port_flag =
    with_one argv i (record infos { error = some few_for_internal_port })
      λ port.
        if_port port (record infos { error = some invalid_internal_port })
          (record infos { contact_port = some port })
client_option argv i infos client_stdout_flag =
    with_one argv i (record infos { error = some few_for_stdout_client })
      λ file. proceed 2 (record infos { stdout_redirect = some file })
client_option argv i infos client_stderr_flag =
    with_one argv i (record infos { error = some few_for_stderr_client })
      λ file. proceed 2 (record infos { stderr_redirect = some file })
client_option argv i infos unknown_flag = proceed 1 infos

abbrev pub resume : {A : Type 0} → (ℕ → A → Option A) → Advance A → Option A
resume go (proceed increment infos) = go increment infos
resume go (give_up infos) = some infos
resume go overrun = none

-- `for (int i = 0; i < argc; ) { … i += increment; }`, for at most `fuel` rounds; `none` is a loop
-- that still runs, or one that has read past the end of `argv`.
unfoldable pub argv_loop :
    {A : Type 0} → (ℕ → Bytes → A → Advance A) → List Bytes → ℕ → ℕ → A → Option A
argv_loop body argv zero i infos = none
argv_loop body argv (suc fuel) i infos = elim (get_elem? argv i) [
  | none ↦ some infos
  | some value ↦
      resume (λ increment infos'. argv_loop body argv fuel (i + increment) infos')
        (body i value infos)
]

-- `handle_argv_server`: as many rounds as there are arguments, and one to leave the loop.
unfoldable pub handle_argv_server :
    (v4 v6 : Bytes → Bool) → List Bytes → ServerArgv → Option ServerArgv
handle_argv_server v4 v6 argv infos =
    argv_loop (λ i value s. server_option v4 v6 argv i s (server_flag value)) argv (length argv + 1)
      0 infos

-- `handle_argv_client`
unfoldable pub handle_argv_client : List Bytes → ClientArgv → Option ClientArgv
handle_argv_client argv infos =
    argv_loop (λ i value s. client_option argv i s (client_flag value)) argv (length argv + 1) 0
      infos

-- `handle_argv_boot`: true when it shows the help and ends the process.
unfoldable pub handle_argv_boot : List Bytes → Bool
unfolding spelled
handle_argv_boot [] = false
handle_argv_boot (value ∷ argv) =
    spelled (codes "--help") (codes "-h") value || handle_argv_boot argv
