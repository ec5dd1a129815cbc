-- ===== src/Client/Records.antt =====
-- The machines that the client remembers: `has_file_record`, `has_file_machine_record`, and the
-- update of `handle_search_answer`.
use gnutella.Base.{
  All, sym, append-nil, append_assoc, arith, true, ◌∙◌, ◌≡◌, refl, Bool, false, ◌&&◌, ◌||◌, Bytes,
  List, [], ◌∷◌, ◌++◌, Option, none, some, if◌then◌else◌, str_eq, str_eq_refl, eq_of_str_eq,
  Bool-cases, inl, inr,
}
use gnutella.Wire.{Reader, yield, ◌>>=◌, read_byte, read_string, read_machines}

-- `file_lookup_t`; a `machine_t` is an IP and a port.
pub record FileLookup : Type 0 where
  pub filename : Bytes
  pub machines : List (Bytes × Bytes)

unfoldable pub has_file_record : Bytes → List FileLookup → Option FileLookup
has_file_record filename [] = none
has_file_record filename (entry ∷ rest) =
    let later = has_file_record filename rest in
    if str_eq entry.filename filename then some entry else later

unfoldable pub has_file_machine_record : List (Bytes × Bytes) → Bytes × Bytes → Bool
has_file_machine_record [] m = false
has_file_machine_record (entry ∷ rest) m =
    (str_eq entry.0 m.0 && str_eq entry.1 m.1) || has_file_machine_record rest m

-- The loop of `handle_search_answer` on a record that was there before.
unfoldable pub add_missing : List (Bytes × Bytes) → List (Bytes × Bytes) → List (Bytes × Bytes)
add_missing known [] = known
add_missing known (m ∷ ms) =
    add_missing (if has_file_machine_record known m then known else known ++ m ∷ []) ms

-- The record of the file is extended; without one, a new record takes all the machines.
unfoldable pub record_answer : Bytes → List (Bytes × Bytes) → List FileLookup → List FileLookup
record_answer filename ms [] = record { filename = filename; machines = ms } ∷ []
record_answer filename ms (entry ∷ rest) =
    let later = record_answer filename ms rest in
    if str_eq entry.filename filename
    then record entry { machines = add_missing entry.machines ms } ∷ rest
    else entry ∷ later

-- The reads of `handle_search_answer`.
unfoldable pub read_client_answer : Reader (Bytes × List (Bytes × Bytes))
read_client_answer = do
  filename ← read_string
  nb_ips ← read_byte
  machines ← read_machines nb_ips
  yield (filename, machines)

-- An answer for one file leaves the records of the other files as they were.
pub record_answer_other :
    (f g : Bytes) (ms : List (Bytes × Bytes)) (cs : List FileLookup)
    → str_eq f g ≡ false
    → has_file_record g (record_answer f ms cs) ≡ has_file_record g cs
unfolding has_file_record record_answer
record_answer_other f g ms [] differ = rw differ refl
record_answer_other f g ms (entry ∷ cs) differ = elim (Bool-cases (str_eq entry.filename f)) [
  | inl same ↦
      let differs : str_eq entry.filename g ≡ false =
        rw (eq_of_str_eq entry.filename f same) differ in
      rw same (rw differs refl)
  | inr other ↦ rw other (rw (record_answer_other f g ms cs differ) refl)
]

same_machine : Bytes × Bytes → Bytes × Bytes → Bool
same_machine x m = str_eq x.0 m.0 && str_eq x.1 m.1

has-append :
    (known : List (Bytes × Bytes)) (x m : Bytes × Bytes)
    → has_file_machine_record (known ++ x ∷ []) m
      ≡ (has_file_machine_record known m || same_machine x m)
unfolding has_file_machine_record same_machine
has-append [] x m = ground arith
has-append (k ∷ known) x m = rw (has-append known x m) (ground arith)

same_machine-true :
    (x m : Bytes × Bytes)
    → same_machine x m ≡ true
    → (known : List (Bytes × Bytes))
    → has_file_machine_record known x ≡ has_file_machine_record known m
unfolding same_machine
same_machine-true (i, p) (j, q) e known =
    let a : str_eq i j ≡ true = ground arith in
    let b : str_eq p q ≡ true = ground arith in rw (eq_of_str_eq i j a, eq_of_str_eq p q b) refl

has-step :
    (known : List (Bytes × Bytes)) (x m : Bytes × Bytes)
    → has_file_machine_record (if has_file_machine_record known x then known else known ++ x ∷ []) m
      ≡ (has_file_machine_record known m || same_machine x m)
has-step known x m = elim (Bool-cases (has_file_machine_record known x)) [
  | inl there ↦ elim (Bool-cases (same_machine x m)) [
    | inl same ↦ let found = same_machine-true x m same known in rw (there, same) (ground arith)
    | inr other ↦ rw (there, other) (ground arith)
  ]
  | inr missing ↦ rw missing (has-append known x m)
]

add_missing_exact :
    (known ms : List (Bytes × Bytes)) (m : Bytes × Bytes)
    → has_file_machine_record (add_missing known ms) m
      ≡ (has_file_machine_record known m || has_file_machine_record ms m)
unfolding has_file_machine_record add_missing
add_missing_exact known [] m = ground arith
add_missing_exact known (x ∷ ms) m =
    add_missing_exact (if has_file_machine_record known x then known else known ++ x ∷ []) ms m
    ∙ rw (has-step known x m) (unfold same_machine in ground arith)

-- What a record lists behind an answer: the old machines at the front and in their order, behind
-- them only machines that it did not list, and in all those of the old record and of the answer.
pub record Extends (known ms new : List (Bytes × Bytes)) : Type 0 where
  pub added : List (Bytes × Bytes)
  pub behind : new ≡ known ++ added
  pub lacked : All (λ m. has_file_machine_record known m ≡ false) added
  pub all_of :
      (m : Bytes × Bytes)
      → has_file_machine_record new m
        ≡ (has_file_machine_record known m || has_file_machine_record ms m)

All-weaken :
    (known added : List (Bytes × Bytes)) (x : Bytes × Bytes)
    → All (λ m. has_file_machine_record (known ++ x ∷ []) m ≡ false) added
    → All (λ m. has_file_machine_record known m ≡ false) added
All-weaken known [] x h = tt
All-weaken known (m ∷ added) x h =
    let parts = has-append known x m in (ground (arith, parts, h.0), All-weaken known added x h.1)

add_missing-added :
    (known ms : List (Bytes × Bytes))
    → (added : List (Bytes × Bytes)) × (add_missing known ms ≡ known ++ added)
      × All (λ m. has_file_machine_record known m ≡ false) added
unfolding add_missing
add_missing-added known [] = ([], sym (append-nil known), tt)
add_missing-added known (x ∷ ms) = elim (Bool-cases (has_file_machine_record known x)) [
  | inl there ↦ rw there (add_missing-added known ms)
  | inr missing ↦
      let (added, behind, lacked) = add_missing-added (known ++ x ∷ []) ms in
      rw missing (
        x ∷ added,
        behind ∙ append_assoc known (x ∷ []) added,
        (missing, All-weaken known added x lacked),
      )
]

add_missing-Extends : (known ms : List (Bytes × Bytes)) → Extends known ms (add_missing known ms)
add_missing-Extends known ms =
    let (added, behind, lacked) = add_missing-added known ms in
    record { added = added; behind = behind; lacked = lacked; all_of = add_missing_exact known ms }

none_known : (ms : List (Bytes × Bytes)) → All (λ m. has_file_machine_record [] m ≡ false) ms
unfolding has_file_machine_record
none_known [] = tt
none_known (m ∷ ms) = (refl, none_known ms)

-- The machines of a record, none without a record.
abbrev pub machines_known : Option FileLookup → List (Bytes × Bytes)
machines_known none = []
machines_known (some entry) = entry.machines

-- After an answer the client has a record of the file: the machines that it had before, in their
-- order, then machines that it lacked, and no machine but those it had and those of the answer,
-- all of which it has.
pub record_answer_own :
    (f : Bytes) (ms : List (Bytes × Bytes)) (cs : List FileLookup)
    → (r : FileLookup) × (has_file_record f (record_answer f ms cs) ≡ some r)
      × Extends (machines_known (has_file_record f cs)) ms r.machines
unfolding has_file_record record_answer
record_answer_own f ms [] = (
  record { filename = f; machines = ms },
  rw (str_eq_refl f) refl,
  record {
    added = ms;
    behind = refl;
    lacked = none_known ms;
    all_of = λ m. unfold has_file_machine_record in refl;
  },
)
record_answer_own f ms (entry ∷ cs) = elim (Bool-cases (str_eq entry.filename f)) [
  | inl same ↦ (
    record entry { machines = add_missing entry.machines ms },
    rw same (rw same refl),
    rw same (add_missing-Extends entry.machines ms),
  )
  | inr other ↦
      let (r, found, its) = record_answer_own f ms cs in
      (r, rw other (rw other found), rw other its)
]
