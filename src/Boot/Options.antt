-- ===== src/Boot/Options.antt =====
-- The server's command line as the options that it spells, and what `handle_argv_server` makes of it.
use gnutella.Base.{◌≡◌, refl, Bool, true, false, Bytes, codes, List, [], ◌∷◌, ◌++◌, some, str_eq}
use gnutella.Util.Ports.{check_port, check_ip}
use gnutella.Boot.{
  ArgvError, few_for_contact_point, invalid_contact_ip, invalid_contact_port,
  few_for_listening_port, invalid_listening_port, few_for_stdout_server, few_for_stderr_server,
  ServerArgv, first_machine_flag, contact_flag, listen_flag, stdout_flag, stderr_flag, other_flag,
  server_flag,
}

-- An option as a user means it; `long` chooses the long spelling.
pub data ServerOption : Type 0 where
  first_machine : (long : Bool) → ServerOption
  contact : (long : Bool) → (ip port : Bytes) → ServerOption
  listen : (long : Bool) → (port : Bytes) → ServerOption
  redirect_stdout redirect_stderr : (file : Bytes) → ServerOption
  -- a word that the server does not know, such as the program's name
  word : Bytes → ServerOption

abbrev pub spelling : Bool → Bytes → Bytes → Bytes
spelling true long short = long
spelling false long short = short

-- The words that spell an option.
abbrev pub write_option : ServerOption → List Bytes
write_option (first_machine l) = spelling l (codes "--first") (codes "-f") ∷ []
write_option (contact l ip port) = spelling l (codes "--contact") (codes "-c") ∷ ip ∷ port ∷ []
write_option (listen l port) = spelling l (codes "--listen") (codes "-l") ∷ port ∷ []
write_option (redirect_stdout file) = codes "-sout" ∷ file ∷ []
write_option (redirect_stderr file) = codes "-serr" ∷ file ∷ []
write_option (word w) = w ∷ []

abbrev pub write_options : List ServerOption → List Bytes
write_options [] = []
write_options (o ∷ options) = write_option o ++ write_options options

-- What an option asks for.
abbrev pub apply_option : ServerOption → ServerArgv → ServerArgv
apply_option (first_machine l) s = record s { first_machine = true }
apply_option (contact l ip port) s = record s { contact_ip = some ip; contact_port = some port }
apply_option (listen l port) s = record s { listen_port = some port }
apply_option (redirect_stdout file) s = record s { stdout_redirect = some file }
apply_option (redirect_stderr file) s = record s { stderr_redirect = some file }
apply_option (word w) s = s

abbrev pub apply_options : List ServerOption → ServerArgv → ServerArgv
apply_options [] s = s
apply_options (o ∷ options) s = apply_options options (apply_option o s)

module _ (v4 v6 : Bytes → Bool) where
  abbrev pub AreValid : ServerOption → Type 0
  AreValid (first_machine l) = Unit
  AreValid (contact l ip port) = (check_ip v4 v6 ip ≡ true) × (check_port port ≡ true)
  AreValid (listen l port) = check_port port ≡ true
  AreValid (redirect_stdout file) = Unit
  AreValid (redirect_stderr file) = Unit
  AreValid (word w) = server_flag w ≡ other_flag

-- The words at the end of a command line that make the server refuse it.
pub data Refused : Type 0 where
  contact_alone : (long : Bool) → Refused
  contact_without_port : (long : Bool) → (ip : Bytes) → Refused
  contact_bad_ip : (long : Bool) → (ip port : Bytes) → List Bytes → Refused
  contact_bad_port : (long : Bool) → (ip port : Bytes) → List Bytes → Refused
  listen_alone : (long : Bool) → Refused
  listen_bad : (long : Bool) → (port : Bytes) → List Bytes → Refused
  stdout_alone stderr_alone : Refused

abbrev pub write_refused : Refused → List Bytes
write_refused (contact_alone l) = spelling l (codes "--contact") (codes "-c") ∷ []
write_refused (contact_without_port l ip) = spelling l (codes "--contact") (codes "-c") ∷ ip ∷ []
write_refused (contact_bad_ip l ip port more) =
    spelling l (codes "--contact") (codes "-c") ∷ ip ∷ port ∷ more
write_refused (contact_bad_port l ip port more) =
    spelling l (codes "--contact") (codes "-c") ∷ ip ∷ port ∷ more
write_refused (listen_alone l) = spelling l (codes "--listen") (codes "-l") ∷ []
write_refused (listen_bad l port more) = spelling l (codes "--listen") (codes "-l") ∷ port ∷ more
write_refused stdout_alone = codes "-sout" ∷ []
write_refused stderr_alone = codes "-serr" ∷ []

abbrev pub reason : Refused → ArgvError
reason (contact_alone l) = few_for_contact_point
reason (contact_without_port l ip) = few_for_contact_point
reason (contact_bad_ip l ip port more) = invalid_contact_ip
reason (contact_bad_port l ip port more) = invalid_contact_port
reason (listen_alone l) = few_for_listening_port
reason (listen_bad l port more) = invalid_listening_port
reason stdout_alone = few_for_stdout_server
reason stderr_alone = few_for_stderr_server

module _ (v4 v6 : Bytes → Bool) where
  abbrev pub IsBad : Refused → Type 0
  IsBad (contact_bad_ip l ip port more) = check_ip v4 v6 ip ≡ false
  IsBad (contact_bad_port l ip port more) = (check_ip v4 v6 ip ≡ true) × (check_port port ≡ false)
  IsBad (listen_bad l port more) = check_port port ≡ false
  IsBad (contact_alone l) = Unit
  IsBad (contact_without_port l ip) = Unit
  IsBad (listen_alone l) = Unit
  IsBad stdout_alone = Unit
  IsBad stderr_alone = Unit

pub contact-flag :
    (l : Bool) → server_flag (spelling l (codes "--contact") (codes "-c")) ≡ contact_flag
unfolding server_flag str_eq
contact-flag true = refl
contact-flag false = refl

pub listen-flag :
    (l : Bool) → server_flag (spelling l (codes "--listen") (codes "-l")) ≡ listen_flag
unfolding server_flag str_eq
listen-flag true = refl
listen-flag false = refl

pub first-flag :
    (l : Bool) → server_flag (spelling l (codes "--first") (codes "-f")) ≡ first_machine_flag
unfolding server_flag str_eq
first-flag true = refl
first-flag false = refl

pub stdout-flag : server_flag (codes "-sout") ≡ stdout_flag
unfolding server_flag str_eq
stdout-flag = refl

pub stderr-flag : server_flag (codes "-serr") ≡ stderr_flag
unfolding server_flag str_eq
stderr-flag = refl
