-- ===== src/Boot/Reading.antt =====
-- `handle_argv_server` reads the options that a command line spells.
use gnutella.Base.{
  ℕ, suc, ◌+◌, ◌-◌, ◌<◌, ◌≤◌, ◌≡◌, refl, ◌∙◌, ap, Bool, Bytes, List, [], ◌∷◌, ◌++◌, append_assoc,
  append-nil, some, arith, length, length-append, get_elem?, All,
}
use gnutella.Boot.{
  ServerArgv, Advance, proceed, give_up, contact_point, ServerFlag, contact_flag, server_flag,
  server_option, argv_loop, handle_argv_server,
}
use gnutella.Boot.Steps.{
  get_elem?-append, get_elem?-here, get_elem?-length, enough, short, at_one, loop-step,
}
use gnutella.Boot.Options.{
  ServerOption, first_machine, contact, listen, redirect_stdout, redirect_stderr, word,
  write_option, write_options, apply_option, apply_options, AreValid, Refused, contact_alone,
  contact_without_port, contact_bad_ip, contact_bad_port, listen_alone, listen_bad, stdout_alone,
  stderr_alone, write_refused, reason, IsBad, contact-flag, listen-flag, first-flag, stdout-flag,
  stderr-flag,
}

module _ (v4 v6 : Bytes → Bool) where
  abbrev body : List Bytes → ℕ → Bytes → ServerArgv → Advance ServerArgv
  body argv i value s = server_option v4 v6 argv i s (server_flag value)

  -- What the body does at the first word of `words`, behind `pre`.
  abbrev at_words : List Bytes → List Bytes → ServerFlag → ServerArgv → Advance ServerArgv
  at_words pre words flag s = server_option v4 v6 (pre ++ words) (length pre) s flag

  at_contact :
      (pre : List Bytes) (w ip port : Bytes) (more : List Bytes) (s : ServerArgv)
      → at_words pre (w ∷ ip ∷ port ∷ more) contact_flag s ≡ contact_point v4 v6 ip port s
  unfolding server_option
  at_contact pre w ip port more s =
      rw
        (
          enough pre (w ∷ ip ∷ port ∷ more) 2 (omega arith),
          get_elem?-append pre (w ∷ ip ∷ port ∷ more) 1,
          get_elem?-append pre (w ∷ ip ∷ port ∷ more) 2,
        )
        refl

  at_option :
      (pre tail : List Bytes) (o : ServerOption) (s : ServerArgv)
      → AreValid v4 v6 o
      → (value : Bytes) × (increment : ℕ) × (get_elem?
            (pre ++ (write_option o ++ tail))
            (length pre)
          ≡ some value)
        × (body (pre ++ (write_option o ++ tail)) (length pre) value s
            ≡ proceed increment (apply_option o s))
        × (length (pre ++ write_option o) ≡ length pre + increment)
  unfolding server_option
  at_option pre tail (first_machine l) s h =
      (_, 1, get_elem?-here pre _, rw (first-flag l) refl, length-append pre _)
  at_option pre tail (contact l ip port) s h = (
    _,
    3,
    get_elem?-here pre _,
    rw (contact-flag l) (at_contact pre _ ip port tail s ∙ rw (h.0, h.1) refl),
    length-append pre _,
  )
  at_option pre tail (listen l port) s h = (
    _,
    2,
    get_elem?-here pre _,
    rw (listen-flag l) (at_one pre _ port tail _ _ ∙ rw h refl),
    length-append pre _,
  )
  at_option pre tail (redirect_stdout file) s h =
      (_, 2, get_elem?-here pre _, rw stdout-flag (at_one pre _ file tail _ _), length-append pre _)
  at_option pre tail (redirect_stderr file) s h =
      (_, 2, get_elem?-here pre _, rw stderr-flag (at_one pre _ file tail _ _), length-append pre _)
  at_option pre tail (word w) s h = (w, 1, get_elem?-here pre _, rw h refl, length-append pre _)

  loop_option :
      (pre tail : List Bytes) (o : ServerOption) (argv : List Bytes) (k : ℕ) (s : ServerArgv)
      → argv ≡ pre ++ (write_option o ++ tail)
      → AreValid v4 v6 o
      → argv_loop (body argv) argv (suc k) (length pre) s
        ≡ argv_loop (body argv) argv k (length (pre ++ write_option o)) (apply_option o s)
  loop_option pre tail o argv k s same valid =
      let (value, increment, there, does, next) = at_option pre tail o s valid in
      rw (same, next)
        (loop-step (body (pre ++ (write_option o ++ tail))) (pre ++ (write_option o ++ tail)) k
          (length pre) s there does)

  abbrev rounds : List ServerOption → ℕ → ℕ
  rounds [] k = k
  rounds (o ∷ options) k = suc (rounds options k)

  loop_options :
      (pre tail : List Bytes) (options : List ServerOption) (argv : List Bytes) (k : ℕ)
      (s : ServerArgv)
      → argv ≡ pre ++ (write_options options ++ tail)
      → All (AreValid v4 v6) options
      → argv_loop (body argv) argv (rounds options k) (length pre) s
        ≡ argv_loop
            (body argv)
            argv
            k
            (length (pre ++ write_options options))
            (apply_options options s)
  loop_options pre tail [] argv k s same valid = rw append-nil refl
  loop_options pre tail (o ∷ options) argv k s same valid =
      loop_option pre (write_options options ++ tail) o argv (rounds options k) s
        (same ∙ rw append_assoc refl) valid.0
      ∙ loop_options (pre ++ write_option o) tail options argv k (apply_option o s)
          (same ∙ rw (append_assoc, append_assoc) refl) valid.1
      ∙ ap
          (λ (ws : List Bytes).
            argv_loop (body argv) argv k (length ws) (apply_options options (apply_option o s)))
          (append_assoc pre (write_option o) (write_options options))

  rounds-add : (options : List ServerOption) (k : ℕ) → rounds options k ≡ length options + k
  rounds-add [] k = omega arith
  rounds-add (o ∷ options) k = omega (arith, rounds-add options k)

write_option-pos : (o : ServerOption) → 0 < length (write_option o)
write_option-pos (first_machine l) = omega arith
write_option-pos (contact l ip port) = omega arith
write_option-pos (listen l port) = omega arith
write_option-pos (redirect_stdout file) = omega arith
write_option-pos (redirect_stderr file) = omega arith
write_option-pos (word w) = omega arith

pub length-write_options-ge :
    (options : List ServerOption) → length options ≤ length (write_options options)
length-write_options-ge [] = omega arith
length-write_options-ge (o ∷ options) = omega (
  arith,
  length-append (write_option o) (write_options options),
  write_option-pos o,
  length-write_options-ge options,
)

module _ (v4 v6 : Bytes → Bool) (options : List ServerOption) (valid : All (AreValid v4 v6) options)
    (s : ServerArgv) where
  -- The rounds that are left when the options have been read.
  enough_rounds :
      (tail : List Bytes)
      → (k : ℕ) × (length (write_options options ++ tail) + 1 ≡ rounds v4 v6 options (suc k))
  enough_rounds tail = (
    length (write_options options ++ tail) - length options,
    omega (
      arith,
      rounds-add v4 v6 options (suc (length (write_options options ++ tail) - length options)),
      length-append (write_options options) tail,
      length-write_options-ge options,
    ),
  )

  read_options :
      (tail : List Bytes)
      → (k : ℕ) × (handle_argv_server v4 v6 (write_options options ++ tail) s
          ≡ argv_loop
              (body v4 v6 (write_options options ++ tail))
              (write_options options ++ tail)
              (suc k)
              (length (write_options options))
              (apply_options options s))
  unfolding handle_argv_server
  read_options tail =
      let (k, e) = enough_rounds tail in
      (
        k,
        rw e (
            loop_options v4 v6 [] tail options (write_options options ++ tail) (suc k) s refl
              valid),
      )

  -- A command line of valid options, each in either spelling, in any order and number:
  -- `handle_argv_server` finds what the options ask for one after the other, so a later option
  -- overrides an earlier one, and it passes over the words that are no option.
  pub handle_argv_server-write_options :
      handle_argv_server v4 v6 (write_options options) s ≡ some (apply_options options s)
  unfolding argv_loop
  handle_argv_server-write_options =
      let (k, e) = read_options [] in
      let whole : write_options options ++ [] ≡ write_options options =
        append-nil (write_options options) in
      rw whole at e ∙ ended k
    where
      ended :
          (k : ℕ)
          → argv_loop
              (body v4 v6 (write_options options))
              (write_options options)
              (suc k)
              (length (write_options options))
              (apply_options options s)
            ≡ some (apply_options options s)
      ended k = rw (get_elem?-length (write_options options), argv_loop) refl

  refuses :
      (pre : List Bytes) (bad : Refused) (t : ServerArgv)
      → IsBad v4 v6 bad
      → (value : Bytes) × (get_elem? (pre ++ write_refused bad) (length pre) ≡ some value)
        × (body v4 v6 (pre ++ write_refused bad) (length pre) value t
            ≡ give_up (record t { error = some (reason bad) }))
  unfolding server_option
  refuses pre (contact_alone l) t h = (
    _,
    get_elem?-here pre _,
    rw (contact-flag l) (rw (short pre (write_refused (contact_alone l)) 2 (omega arith)) refl),
  )
  refuses pre (contact_without_port l ip) t h = (
    _,
    get_elem?-here pre _,
    rw (contact-flag l)
        (rw (short pre (write_refused (contact_without_port l ip)) 2 (omega arith)) refl),
  )
  refuses pre (contact_bad_ip l ip port more) t h = (
    _,
    get_elem?-here pre _,
    rw (contact-flag l) (at_contact v4 v6 pre _ ip port more t ∙ rw h refl),
  )
  refuses pre (contact_bad_port l ip port more) t h = (
    _,
    get_elem?-here pre _,
    rw (contact-flag l) (at_contact v4 v6 pre _ ip port more t ∙ rw (h.0, h.1) refl),
  )
  refuses pre (listen_alone l) t h = (
    _,
    get_elem?-here pre _,
    rw (listen-flag l) (rw (short pre (write_refused (listen_alone l)) 1 (omega arith)) refl),
  )
  refuses pre (listen_bad l port more) t h =
      (_, get_elem?-here pre _, rw (listen-flag l) (at_one pre _ port more _ _ ∙ rw h refl))
  refuses pre stdout_alone t h = (
    _,
    get_elem?-here pre _,
    rw stdout-flag (rw (short pre (write_refused stdout_alone) 1 (omega arith)) refl),
  )
  refuses pre stderr_alone t h = (
    _,
    get_elem?-here pre _,
    rw stderr-flag (rw (short pre (write_refused stderr_alone) 1 (omega arith)) refl),
  )

  -- Valid options and behind them an option that lacks a parameter, or whose IP or port is
  -- refused: `handle_argv_server` keeps what the valid options ask for and sets `error` to the
  -- text for that option, whatever comes behind it.
  pub handle_argv_server-write_refused :
      (bad : Refused)
      → IsBad v4 v6 bad
      → handle_argv_server v4 v6 (write_options options ++ write_refused bad) s
        ≡ some (record (apply_options options s) { error = some (reason bad) })
  unfolding argv_loop
  handle_argv_server-write_refused bad h =
      let (k, e) = read_options (write_refused bad) in
      let (value, there, does) = refuses (write_options options) bad (apply_options options s) h in
      e ∙ rw (there, argv_loop) (rw does refl)
