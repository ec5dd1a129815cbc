-- ===== src/Log.antt =====
-- log.c as the Makefile builds it, with DEBUG: `applog`, `log_to_file`, `debug_assert`. The text that
-- `vsnprintf` would make of the format and its arguments is a parameter; NULL is `none`.
pub mod Levels
use gnutella.Base.{
  ℕ, ◌+◌, Bool, true, false, Bytes, codes, List, [], ◌∷◌, ◌++◌, Option, none, some, if◌then◌else◌,
  leb, ◌==◌, ◌||◌, take,
}
use gnutella.Base.Int.{ℤ, pos, negsuc}
use gnutella.Net.{Cmd, assert}

pub data File : Type 0 where
  stdout stderr : File

-- `log_function_t`
pub data LogFunction : Type 0 where
  log_info log_warning log_critical log_fatal : LogFunction

abbrev pub log_level_max : ℕ
log_level_max = 4

-- `get_log_function_by_level`
unfoldable pub get_log_function_by_level : ℤ → Option LogFunction
get_log_function_by_level (negsuc n) = none
get_log_function_by_level (pos n) =
    if n == 0
    then some log_info
    else if n == 1
    then some log_warning
    else if n == 2
    then some log_critical
    else if n == 3
    then some log_fatal
    else none

-- `get_log_file_by_level`
unfoldable pub get_log_file_by_level : ℤ → Option File
get_log_file_by_level (negsuc n) = none
get_log_file_by_level (pos n) =
    if n == 0
    then some stdout
    else if n == 1
    then some stderr
    else if n == 2
    then some stderr
    else if n == 3
    then some stderr
    else none

-- An escape sequence of the terminal.
abbrev pub escape : Bytes → Bytes
escape text = 27 ∷ text

-- What the four functions print of a message.
unfoldable pub decorate : LogFunction → Bytes → Bytes
decorate log_info message =
    (escape (codes "[0;38;2;0;204;204m[Info]: ") ++ message) ++ escape (codes "[0;39m")
decorate log_warning message =
    (escape (codes "[0;38;2;153;51;255m[Warning]: ") ++ message) ++ escape (codes "[0;39m")
decorate log_critical message =
    (escape (codes "[0;38;2;255;0;0m[Error]: ") ++ message) ++ escape (codes "[0;39m")
decorate log_fatal message =
    (escape (codes "[0;38;2;0;0;0;48;2;255;255;255m[Fatal]: ") ++ message)
    ++ (escape (codes "[0;39m") ++ escape (codes "[0;49m"))

-- -1, 0 with what was printed and where, or an `assert` that fails.
pub data LogResult : Type 0 where
  refused : LogResult
  printed : File → Bytes → LogResult
  asserts : LogResult

-- `log_internal`: the message is cut to what the buffer holds beside its NUL.
unfoldable pub log_internal : Option LogFunction → Bytes → Option File → LogResult
log_internal none message file = asserts
log_internal (some log_fn) message none = asserts
log_internal (some log_fn) message (some file) = printed file (decorate log_fn (take 4095 message))

-- `log_level >= LOG_LEVEL_MAX || log_level < 0`
unfoldable pub out_of_levels : ℤ → Bool
out_of_levels (pos n) = leb log_level_max n
out_of_levels (negsuc n) = true

-- `log_to_file`
unfoldable pub log_to_file : ℤ → Option File → Option Bytes → LogResult
log_to_file log_level file none = refused
log_to_file log_level file (some message) =
    if out_of_levels log_level
    then refused
    else log_internal (get_log_function_by_level log_level) message file

-- `applog`
unfoldable pub applog : ℤ → Option Bytes → LogResult
applog log_level none = refused
applog log_level (some message) =
    if out_of_levels log_level
    then refused
    else log_internal (get_log_function_by_level log_level) message
        (get_log_file_by_level log_level)

-- `debug_assert`
unfoldable pub debug_assert : {S : Type 0} → Bool → Cmd S (Unit {0})
unfolding assert
debug_assert condition = assert condition
