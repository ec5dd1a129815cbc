-- ===== src/Boot/ClientWords.antt =====
-- What `handle_argv_client` makes of the words that spell the server's options.
use gnutella.Base.{
  ℕ, suc, ◌+◌, ◌≤◌, ◌≡◌, refl, ◌∙◌, ap, sym, Bool, true, false, Bytes, codes, List, [], ◌∷◌, ◌++◌,
  append-nil, append_assoc, some, arith, length, length-append, get_elem?, All, str_eq,
}
use gnutella.Boot.{
  ClientArgv, Advance, proceed, port_flag, unknown_flag, client_flag, client_option, argv_loop,
}
use gnutella.Boot.Options.{
  ServerOption, first_machine, contact, listen, redirect_stdout, redirect_stderr, word, spelling,
  write_option, write_options, AreValid,
}
use gnutella.Boot.Steps.{get_elem?-here, at_one, loop-step}

abbrev pub client_body : List Bytes → ℕ → Bytes → ClientArgv → Advance ClientArgv
client_body argv i value s = client_option argv i s (client_flag value)

-- The words that the client passes over.
abbrev pub AreUnknown : List Bytes → Type 0
AreUnknown = All (λ w. client_flag w ≡ unknown_flag)

-- No parameter of an option for the server is an option of the client.
abbrev pub IsClear : ServerOption → Type 0
IsClear (first_machine l) = Unit
IsClear (contact l ip port) = AreUnknown (ip ∷ port ∷ [])
IsClear (listen l port) = Unit
IsClear (redirect_stdout file) = client_flag file ≡ unknown_flag
IsClear (redirect_stderr file) = client_flag file ≡ unknown_flag
IsClear (word w) = client_flag w ≡ unknown_flag

-- What the client takes from an option.
abbrev pub pass_on : ServerOption → ClientArgv → ClientArgv
pass_on (listen l port) s = record s { contact_port = some port }
pass_on (first_machine l) s = s
pass_on (contact l ip port) s = s
pass_on (redirect_stdout file) s = s
pass_on (redirect_stderr file) s = s
pass_on (word w) s = s

abbrev pub pass_all : List ServerOption → ClientArgv → ClientArgv
pass_all [] s = s
pass_all (o ∷ options) s = pass_all options (pass_on o s)

client_listen-flag :
    (l : Bool) → client_flag (spelling l (codes "--listen") (codes "-l")) ≡ port_flag
unfolding client_flag str_eq
client_listen-flag true = refl
client_listen-flag false = refl

-- The rounds that an option takes.
abbrev pub turns : ServerOption → ℕ
turns (listen l port) = 1
turns (first_machine l) = 1
turns (contact l ip port) = 3
turns (redirect_stdout file) = 2
turns (redirect_stderr file) = 2
turns (word w) = 1

unfoldable pub all_turns : List ServerOption → ℕ → ℕ
all_turns [] k = k
all_turns (o ∷ options) k = turns o + all_turns options k

turns-le : (o : ServerOption) → turns o ≤ length (write_option o)
turns-le (first_machine l) = omega arith
turns-le (contact l ip port) = omega arith
turns-le (listen l port) = omega arith
turns-le (redirect_stdout file) = omega arith
turns-le (redirect_stderr file) = omega arith
turns-le (word w) = omega arith

pub all_turns-le :
    (options : List ServerOption) → all_turns options 0 ≤ length (write_options options)
unfolding all_turns
all_turns-le [] = omega arith
all_turns-le (o ∷ options) = omega (
  arith,
  turns-le o,
  all_turns-le options,
  length-append (write_option o) (write_options options),
)

pub all_turns-add :
    (options : List ServerOption) (k : ℕ) → all_turns options k ≡ all_turns options 0 + k
unfolding all_turns
all_turns-add [] k = omega arith
all_turns-add (o ∷ options) k = omega (arith, all_turns-add options k)

module _ (argv : List Bytes) where
  skip_words :
      (pre ws tail : List Bytes) (k : ℕ) (s : ClientArgv)
      → argv ≡ pre ++ (ws ++ tail)
      → AreUnknown ws
      → argv_loop (client_body argv) argv (length ws + k) (length pre) s
        ≡ argv_loop (client_body argv) argv k (length (pre ++ ws)) s
  unfolding client_option
  skip_words pre [] tail k s same h = let e : 0 + k ≡ k = omega arith in rw (e, append-nil) refl
  skip_words pre (w ∷ ws) tail k s same h =
      let there : get_elem? argv (length pre) ≡ some w =
        rw same (get_elem?-here pre (w ∷ (ws ++ tail))) in
      let rounds : suc (length ws) + k ≡ suc (length ws + k) = omega arith in
      let next : length pre + 1 ≡ length (pre ++ w ∷ []) = sym (length-append pre (w ∷ [])) in
      let behind : length ((pre ++ w ∷ []) ++ ws) ≡ length (pre ++ w ∷ ws) =
        ap length (append_assoc pre (w ∷ []) ws) in
      let first : argv_loop (client_body argv) argv (suc (length ws + k)) (length pre) s
          ≡ argv_loop (client_body argv) argv (length ws + k) (length pre + 1) s =
        loop-step (client_body argv) argv (length ws + k) (length pre) s there (rw h.0 refl) in
      rw (rounds, first, next, sym behind)
        (skip_words (pre ++ w ∷ []) ws tail k s (same ∙ rw append_assoc refl) h.1)

  module _ (v4 v6 : Bytes → Bool) where
    read_option :
        (pre tail : List Bytes) (o : ServerOption) (k : ℕ) (s : ClientArgv)
        → argv ≡ pre ++ (write_option o ++ tail)
        → AreValid v4 v6 o
        → IsClear o
        → argv_loop (client_body argv) argv (turns o + k) (length pre) s
          ≡ argv_loop (client_body argv) argv k (length (pre ++ write_option o)) (pass_on o s)
    unfolding client_flag client_option str_eq
    read_option pre tail (first_machine true) k s same v c =
        skip_words pre _ tail k s same (refl, tt)
    read_option pre tail (first_machine false) k s same v c =
        skip_words pre _ tail k s same (refl, tt)
    read_option pre tail (contact true ip port) k s same v c =
        skip_words pre _ tail k s same (refl, c)
    read_option pre tail (contact false ip port) k s same v c =
        skip_words pre _ tail k s same (refl, c)
    read_option pre tail (redirect_stdout file) k s same v c =
        skip_words pre _ tail k s same (refl, (c, tt))
    read_option pre tail (redirect_stderr file) k s same v c =
        skip_words pre _ tail k s same (refl, (c, tt))
    read_option pre tail (word w) k s same v c = skip_words pre _ tail k s same (c, tt)
    read_option pre tail (listen l port) k s same v c =
        let here : get_elem? argv (length pre) ≡ some (spelling l (codes "--listen") (codes "-l")) =
          rw same (get_elem?-here pre (write_option (listen l port) ++ tail)) in
        let does : client_body argv (length pre) (spelling l (codes "--listen") (codes "-l")) s
            ≡ proceed 2 (record s { contact_port = some port }) =
          rw (client_listen-flag l) (rw same (at_one pre _ port tail _ _ ∙ rw v refl)) in
        let next : length pre + 2 ≡ length (pre ++ write_option (listen l port)) =
          sym (length-append pre (write_option (listen l port))) in
        let rounds : 1 + k ≡ suc k = omega arith in
        let first : argv_loop (client_body argv) argv (suc k) (length pre) s
            ≡ argv_loop (client_body argv) argv k (length pre + 2)
                (record s { contact_port = some port }) =
          loop-step (client_body argv) argv k (length pre) s here does in
        rw (rounds, first, next) refl

    pub read_options :
        (pre tail : List Bytes) (options : List ServerOption) (k : ℕ) (s : ClientArgv)
        → argv ≡ pre ++ (write_options options ++ tail)
        → All (AreValid v4 v6) options
        → All IsClear options
        → argv_loop (client_body argv) argv (all_turns options k) (length pre) s
          ≡ argv_loop
              (client_body argv)
              argv
              k
              (length (pre ++ write_options options))
              (pass_all options s)
    unfolding all_turns
    read_options pre tail [] k s same v c = rw append-nil refl
    read_options pre tail (o ∷ options) k s same v c =
        read_option pre (write_options options ++ tail) o (all_turns options k) s
          (same ∙ rw append_assoc refl) v.0 c.0
        ∙ read_options (pre ++ write_option o) tail options k (pass_on o s)
            (same ∙ rw (append_assoc, append_assoc) refl) v.1 c.1
        ∙ ap
            (λ (ws : List Bytes).
              argv_loop (client_body argv) argv k (length ws) (pass_all options (pass_on o s)))
            (append_assoc pre (write_option o) (write_options options))
