-- ===== src/Log/Levels.antt =====
-- Every level that `applog` lets through has a function and a file.
use gnutella.Base.{
  ℕ, zero, suc, ◌<◌, ◌≡◌, refl, ◌⊎◌, inl, inr, Bytes, Option, none, some, arith, take, leb,
  Bool-cases, if◌then◌else◌,
}
use gnutella.Base.Int.{ℤ, pos, negsuc}
use gnutella.Log.{
  stdout, stderr, LogFunction, log_info, log_warning, log_critical, log_fatal, decorate,
  get_log_function_by_level, get_log_file_by_level, refused, printed, log_internal, out_of_levels,
  applog,
}

by_level :
    (n : ℕ) (message : Bytes)
    → n < 4
    → (f : LogFunction) × (applog (pos n) (some message)
        ≡ printed (if leb 1 n then stderr else stdout) (decorate f (take 4095 message)))
unfolding applog out_of_levels get_log_function_by_level get_log_file_by_level log_internal
by_level zero message h = (log_info, refl)
by_level (suc zero) message h = (log_warning, refl)
by_level (suc (suc zero)) message h = (log_critical, refl)
by_level (suc (suc (suc zero))) message h = (log_fatal, refl)
by_level (suc (suc (suc (suc n)))) message h = ground arith

-- `applog` with any level and any format: it returns -1, or the level is one of the four and there
-- is a format; then the message, cut to 4095 characters, is printed between the colours of one of
-- the four functions, to the standard output for an information and to the error output for the
-- others. No `assert` of `log_internal` fails.
pub applog_prints :
    (log_level : ℤ) (format : Option Bytes)
    → (applog log_level format ≡ refused)
      ⊎ ((n : ℕ) × (message : Bytes) × (f : LogFunction) × (log_level ≡ pos n)
          × (n < 4)
          × (format ≡ some message)
          × (applog log_level format
              ≡ printed (if leb 1 n then stderr else stdout) (decorate f (take 4095 message))))
unfolding applog out_of_levels
applog_prints log_level none = inl refl
applog_prints (negsuc n) (some message) = inl refl
applog_prints (pos n) (some message) = elim (Bool-cases (leb 4 n)) [
  | inl high ↦ inl (rw (high, applog) refl)
  | inr low ↦
      let below : n < 4 = ground arith in
      let (f, prints) = by_level n message below in inr (n, message, f, refl, below, refl, prints)
]
