-- ===== src/Wire/Fields.antt =====
-- Length-prefixed strings: what is written is what is read.
use gnutella.Base.{
  ℕ, ◌+◌, ◌*◌, ◌≤◌, ◌<◌, ◌≡◌, refl, ◌∙◌, ap, Bytes, List, [], ◌∷◌, ◌++◌, some, arith, length, All,
  length-append, append-nil, append_assoc, le→leb, take-length, take-length-append,
  drop-length-append, length-take,
}
use gnutella.Wire.{
  uint8, string_field, machine_fields, read_bytes, read_byte, c_str, read_string, read_machine,
  read_machines, joined, yield, >>=-some,
}
use gnutella.Wire.Packs.{joined-append}

-- The characters of a C string: bytes other than NUL.
abbrev pub IsText : Bytes → Type 0
IsText = All (λ c. (0 < c) × (c < 256))

-- A string that a length byte can announce.
pub record IsField (s : Bytes) : Type 0 where
  pub text : IsText s
  pub short : length s < 256

abbrev pub AreMachines : List (Bytes × Bytes) → Type 0
AreMachines = All (λ (ip, port). IsField ip × IsField port)

pub c_str-append : (s t : Bytes) → IsText s → c_str (s ++ t) ≡ s ++ c_str t
unfolding c_str
c_str-append [] t h = refl
c_str-append (c ∷ s) t h = ground (arith, c_str-append s t h.1)

pub c_str_lem : (s : Bytes) → IsText s → c_str s ≡ s
unfolding c_str
c_str_lem [] t = refl
c_str_lem (c ∷ s) t = ground (arith, c_str_lem s t.1)

read_bytes-append : (s rest : Bytes) → read_bytes (length s) (s ++ rest) ≡ some (s, rest)
unfolding read_bytes
read_bytes-append s rest = rw (
  le→leb (length s) (length (s ++ rest)) (omega (arith, length-append s rest)),
  take-length-append s rest,
  drop-length-append s rest,
)

pub joined-string_field : (s : Bytes) → length s < 256 → joined (string_field s) ≡ length s ∷ s
unfolding joined string_field
joined-string_field s h =
    let e : uint8 (length s) ≡ length s = omega arith in rw (e, take-length s, append-nil) refl

-- The length of what a field writes, for any string: at most 256 bytes.
pub length-string_field : (s : Bytes) → length (joined (string_field s)) ≡ uint8 (length s) + 1
unfolding joined string_field
length-string_field s = rw append-nil (omega (arith, length-take (uint8 (length s)) s))

pub read_string-cons :
    (s rest : Bytes) → IsField s → read_string ((length s ∷ s) ++ rest) ≡ some (s, rest)
unfolding read_string read_byte
read_string-cons s rest f =
    >>=-some (read_bytes (length s)) (λ t. yield (c_str t)) (read_bytes-append s rest)
    ∙ ap (λ t. some (t, rest)) (c_str_lem s f.text)

pub read_string-field :
    (s rest : Bytes) → IsField s → read_string (joined (string_field s) ++ rest) ≡ some (s, rest)
read_string-field s rest f = rw (joined-string_field s f.short) (read_string-cons s rest f)

pub read_machine-fields :
    (ip port rest : Bytes)
    → IsField ip
    → IsField port
    → read_machine (joined (string_field ip) ++ (joined (string_field port) ++ rest))
      ≡ some ((ip, port), rest)
unfolding read_machine
read_machine-fields ip port rest i p =
    >>=-some read_string _ (read_string-field ip _ i)
    ∙ >>=-some read_string _ (read_string-field port _ p)

joined-machine_fields :
    (ip port rest : Bytes) (ms : List (Bytes × Bytes))
    → joined (machine_fields ((ip, port) ∷ ms)) ++ rest
      ≡ joined (string_field ip)
        ++ (joined (string_field port) ++ (joined (machine_fields ms) ++ rest))
unfolding machine_fields
joined-machine_fields ip port rest ms =
    rw (joined-append, joined-append, append_assoc, append_assoc) refl

-- Reading as many machines as were written gives the machines back, and leaves what follows.
pub read_machines-fields :
    (ms : List (Bytes × Bytes)) (rest : Bytes)
    → AreMachines ms
    → read_machines (length ms) (joined (machine_fields ms) ++ rest) ≡ some (ms, rest)
unfolding read_machines
read_machines-fields [] rest h = unfold machine_fields joined in refl
read_machines-fields ((ip, port) ∷ ms) rest ((i, p), hs) =
    rw (joined-machine_fields ip port rest ms) (
      >>=-some read_machine _ (read_machine-fields ip port _ i p)
      ∙ >>=-some (read_machines (length ms)) _ (read_machines-fields ms rest hs))

-- A machine takes at most 2 bytes more than its IP and port.
pub length-machine_fields-cons :
    (ip port : Bytes) (ms : List (Bytes × Bytes))
    → length (joined (machine_fields ((ip, port) ∷ ms)))
      ≡ uint8 (length ip) + uint8 (length port) + 2 + length (joined (machine_fields ms))
unfolding machine_fields
length-machine_fields-cons ip port ms =
    rw
      (
        joined-append,
        joined-append,
        length-append,
        length-append,
        length-string_field ip,
        length-string_field port,
      )
      (omega arith)

-- `n` machines whose strings have at most `i` and `p` characters.
pub length-machine_fields-le :
    (i p : ℕ) (ms : List (Bytes × Bytes))
    → All (λ (ip, port). (length ip ≤ i) × (length port ≤ p)) ms
    → length (joined (machine_fields ms)) ≤ length ms * (i + p + 2)
unfolding machine_fields joined
length-machine_fields-le i p [] h = omega arith
length-machine_fields-le i p ((ip, port) ∷ ms) h =
    grind (arith, length-machine_fields-cons ip port ms, length-machine_fields-le i p ms h.1)
