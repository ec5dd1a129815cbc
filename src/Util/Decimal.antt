-- ===== src/Util/Decimal.antt =====
-- `int_to_string`: the text of a port has at most five characters and is a C string.
use gnutella.Base.{
  ℕ, zero, suc, ◌+◌, ◌/◌, ◌%◌, ◌^◌, ◌≤◌, ◌<◌, ◌≡◌, Bytes, [], ◌∷◌, arith, length, ltb, Bool-cases,
  inl, inr,
}
use native.Mathlib.Nat.{pow-suc}
use gnutella.Wire.Fields.{IsText, IsField}
use gnutella.Util.{digits, int_to_string, count_digits, get_number_of_digits_in}

digits-IsText : (k n : ℕ) (text : Bytes) → IsText text → IsText (digits k n text)
unfolding digits
digits-IsText zero n text t = t
digits-IsText (suc k) n text t =
    ground
      (arith, digits-IsText k (n / 10) ((b'0' + n % 10) ∷ text) ((omega arith, omega arith), t))

div-lt-pow : (n j : ℕ) → n < 10 ^ suc j → n / 10 < 10 ^ j
div-lt-pow n j h = omega (arith, pow-suc 10 j)

-- The text of `n` is as long as `get_number_of_digits_in` says.
length-digits :
    (k n nb : ℕ) (text : Bytes)
    → nb ≡ length text + 1
    → n < 10 ^ suc k
    → length (digits (suc k) n text) ≡ count_digits (suc k) n nb
unfolding digits count_digits
length-digits zero n nb text e h = let small : n < 10 = omega arith in ground arith
length-digits (suc k) n nb text e h = elim (Bool-cases (ltb n 10)) [
  | inl small ↦ rw small (omega arith)
  | inr large ↦ rw large (
      length-digits k (n / 10) (nb + 1) ((b'0' + n % 10) ∷ text) (omega arith)
        (div-lt-pow n (suc k) h))
]

length-digits-le :
    (k j n : ℕ) (text : Bytes) → n < 10 ^ suc j → length (digits k n text) ≤ length text + suc j
unfolding digits
length-digits-le zero j n text h = omega arith
length-digits-le (suc k) zero n text h = let small : n < 10 = omega arith in ground arith
length-digits-le (suc k) (suc j) n text h =
    ground (arith, length-digits-le k j (n / 10) ((b'0' + n % 10) ∷ text), div-lt-pow n (suc j))

-- The text that `int_to_string` writes has as many characters as `get_number_of_digits_in` counts,
-- for every `unsigned int`: a block of that size has no room for the terminator.
pub length-int_to_string :
    (n : ℕ) → n < 2 ^ 32 → length (int_to_string n) ≡ get_number_of_digits_in n
unfolding int_to_string get_number_of_digits_in
length-int_to_string n h =
    let e : n % 2 ^ 32 ≡ n = omega arith in
    rw e (length-digits 9 n 1 [] (omega arith) (omega arith))

-- The text of a port has at most five characters.
pub length-int_to_string-le : (port : ℕ) → port < 65536 → length (int_to_string port) ≤ 5
unfolding int_to_string
length-int_to_string-le port h =
    let e : port % 2 ^ 32 ≡ port = omega arith in rw e (length-digits-le 10 4 port [] (omega arith))

-- The text of a port can be announced by a length byte.
pub int_to_string-IsField : (port : ℕ) → port < 65536 → IsField (int_to_string port)
unfolding int_to_string
int_to_string-IsField port h = record {
  text = digits-IsText 10 (port % 2 ^ 32) [] tt;
  short = omega (arith, length-int_to_string-le port h);
}
