-- ===== src/Boot/Total.antt =====
-- The loops over the command line end, and stay inside `argv`.
use gnutella.Base.{
  ℕ, zero, suc, ◌+◌, ◌<◌, ◌≡◌, refl, Bool, Bytes, List, [], ◌∷◌, some, arith, length, get_elem?,
  leb, Bool-cases, Option-cases, inl, inr,
}
use gnutella.Util.Ports.{check_port, check_ip}
use gnutella.Boot.{
  resume, with_one, if_port, contact_point, ServerArgv, ClientArgv, Advance, proceed, give_up,
  overrun, ServerFlag, first_machine_flag, contact_flag, listen_flag, stdout_flag, stderr_flag,
  other_flag, server_flag, server_option, ClientFlag, port_flag, client_stdout_flag,
  client_stderr_flag, unknown_flag, client_flag, client_option, argv_loop, handle_argv_server,
  handle_argv_client,
}

-- The loop goes forward, and reads nothing past the end.
abbrev Forward : {A : Type 0} → Advance A → Type 0
Forward (proceed increment infos) = 0 < increment
Forward (give_up infos) = Unit
Forward overrun = ⊥

get_elem?-some :
    {A : Type 0} (xs : List A) (i : ℕ) → i < length xs → (x : A) × (get_elem? xs i ≡ some x)
get_elem?-some [] i h = absurd (omega arith)
get_elem?-some (x ∷ xs) zero h = (x, refl)
get_elem?-some (x ∷ xs) (suc i) h = get_elem?-some xs i (omega arith)

get_elem?_lt : {A : Type 0} (xs : List A) (i : ℕ) {x : A} → get_elem? xs i ≡ some x → i < length xs
get_elem?_lt [] i e = absurd (cc)
get_elem?_lt (x ∷ xs) zero e = omega arith
get_elem?_lt (x ∷ xs) (suc i) e = omega (arith, get_elem?_lt xs i e)

module _ {A : Type 0} (body : ℕ → Bytes → A → Advance A) (argv : List Bytes) where
  resume_returns :
      (fuel i : ℕ) (a : Advance A)
      → 0 < fuel
      → Forward a
      → length argv < suc fuel + i
      → ((i' : ℕ) (s : A)
          → 0 < fuel
          → length argv < fuel + i'
          → (r : A) × (argv_loop body argv fuel i' s ≡ some r))
      → (r : A) × (resume (λ increment s. argv_loop body argv fuel (i + increment) s) a ≡ some r)
  resume_returns fuel i (proceed increment s) more f room rest =
      rest (i + increment) s more (omega arith)
  resume_returns fuel i (give_up s) more f room rest = (s, refl)
  resume_returns fuel i overrun more f room rest = absurd f

  -- A loop whose body goes forward and stays inside `argv` returns within a round for each
  -- argument and one more.
  argv_loop_returns :
      ((i : ℕ) (value : Bytes) (s : A) → Forward (body i value s))
      → (fuel i : ℕ) (s : A) → 0 < fuel
      → length argv < fuel + i
      → (r : A) × (argv_loop body argv fuel i s ≡ some r)
  unfolding argv_loop
  argv_loop_returns forward zero i s more room = absurd (omega arith)
  argv_loop_returns forward (suc fuel) i s more room = elim (Option-cases (get_elem? argv i)) [
    | inl e ↦ (s, rw (e, argv_loop) refl)
    | inr (value, e) ↦
        let (r, runs) =
          resume_returns fuel i (body i value s) (omega (arith, get_elem?_lt argv i e))
            (forward i value s) room (argv_loop_returns forward fuel) in
        (r, rw (e, argv_loop) runs)
  ]

with_one-Forward :
    {A : Type 0} (argv : List Bytes) (i : ℕ) (few : A) (consume : Bytes → Advance A)
    → ((a : Bytes) → Forward (consume a))
    → Forward (with_one argv i few consume)
with_one-Forward argv i few consume h = elim (Bool-cases (leb (length argv) (i + 1))) [
  | inl short ↦ rw short tt
  | inr enough ↦ let (a, e) = get_elem?-some argv (i + 1) (ground arith) in rw (enough, e) (h a)
]

if_port-Forward : {A : Type 0} (port : Bytes) (x y : A) → Forward (if_port port x y)
if_port-Forward port x y = elim (Bool-cases (check_port port)) [
  | inl e ↦ rw e (omega arith)
  | inr e ↦ rw e tt
]

module _ (v4 v6 : Bytes → Bool) where
  contact_point-Forward :
      (ip port : Bytes) (s : ServerArgv) → Forward (contact_point v4 v6 ip port s)
  contact_point-Forward ip port s = elim (Bool-cases (check_ip v4 v6 ip)) [
    | inl e ↦ elim (Bool-cases (check_port port)) [
      | inl p ↦ rw (e, p) (omega arith)
      | inr p ↦ rw (e, p) tt
    ]
    | inr e ↦ rw e tt
  ]

  server_option-Forward :
      (argv : List Bytes) (i : ℕ) (s : ServerArgv) (flag : ServerFlag)
      → Forward (server_option v4 v6 argv i s flag)
  unfolding server_option
  server_option-Forward argv i s first_machine_flag = omega arith
  server_option-Forward argv i s contact_flag = elim (Bool-cases (leb (length argv) (i + 2))) [
    | inl short ↦ rw short tt
    | inr enough ↦
        let (ip, e) = get_elem?-some argv (i + 1) (ground arith) in
        let (port, f) = get_elem?-some argv (i + 2) (ground arith) in
        rw (enough, e, f) (contact_point-Forward ip port s)
  ]
  server_option-Forward argv i s listen_flag =
      with_one-Forward argv i _ _ λ port. if_port-Forward port _ _
  server_option-Forward argv i s stdout_flag = with_one-Forward argv i _ _ λ file. omega arith
  server_option-Forward argv i s stderr_flag = with_one-Forward argv i _ _ λ file. omega arith
  server_option-Forward argv i s other_flag = omega arith

  handle_argv_server_returns :
      (argv : List Bytes) (s : ServerArgv)
      → (r : ServerArgv) × (handle_argv_server v4 v6 argv s ≡ some r)
  unfolding handle_argv_server
  handle_argv_server_returns argv s =
      argv_loop_returns _ argv (λ i value t. server_option-Forward argv i t (server_flag value))
        (length argv + 1) 0 s (omega arith) (omega arith)

client_option-Forward :
    (argv : List Bytes) (i : ℕ) (s : ClientArgv) (flag : ClientFlag)
    → Forward (client_option argv i s flag)
unfolding client_option
client_option-Forward argv i s port_flag =
    with_one-Forward argv i _ _ λ port. if_port-Forward port _ _
client_option-Forward argv i s client_stdout_flag = with_one-Forward argv i _ _ λ file. omega arith
client_option-Forward argv i s client_stderr_flag = with_one-Forward argv i _ _ λ file. omega arith
client_option-Forward argv i s unknown_flag = omega arith

handle_argv_client_returns :
    (argv : List Bytes) (s : ClientArgv) → (r : ClientArgv) × (handle_argv_client argv s ≡ some r)
unfolding handle_argv_client
handle_argv_client_returns argv s =
    argv_loop_returns _ argv (λ i value t. client_option-Forward argv i t (client_flag value))
      (length argv + 1) 0 s (omega arith) (omega arith)

-- `handle_argv_server` and `handle_argv_client` return on every command line: their loops end, and
-- read no word past the last one.
pub handle_argv_returns :
    (v4 v6 : Bytes → Bool) (argv : List Bytes) (s : ServerArgv) (t : ClientArgv)
    → ((r : ServerArgv) × (handle_argv_server v4 v6 argv s ≡ some r))
      × ((r : ClientArgv) × (handle_argv_client argv t ≡ some r))
handle_argv_returns v4 v6 argv s t =
    (handle_argv_server_returns v4 v6 argv s, handle_argv_client_returns argv t)
