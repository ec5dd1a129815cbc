-- ===== src/Util/Ports/Zeros.antt =====
-- What `check_port` makes of a number written in decimal, with zeros in front or without.
use gnutella.Base.{
  ℕ, zero, suc, ◌+◌, ◌-◌, ◌*◌, ◌/◌, ◌%◌, ◌^◌, ◌<◌, ◌≤◌, min, ◌≡◌, refl, ◌∙◌, ap, true, false, ◌&&◌,
  Bytes, [], ◌∷◌, ◌++◌, arith, length, ltb, Bool-cases, inl, inr, ◌==◌, length-append, All,
}
use native.Mathlib.Nat.{pow-suc}
use gnutella.Util.{digits, int_to_string}
use gnutella.Util.Ports.{
  is_digit, is_space, scan_digits, skip_blanks, scan_sign, clamp_long, scan_number, strtol,
  check_port,
}

-- The value that a run of digits adds to `acc`.
abbrev pub valued : ℕ → Bytes → ℕ
valued acc [] = acc
valued acc (c ∷ s) = valued (acc * 10 + (c - b'0')) s

abbrev pub AreDigits : Bytes → Type 0
AreDigits = All (λ c. (b'0' ≤ c) × (c ≤ b'9'))

scan_digits_all : (acc : ℕ) (s : Bytes) → AreDigits s → scan_digits acc s ≡ (valued acc s, [])
unfolding scan_digits
scan_digits_all acc [] h = refl
scan_digits_all acc (c ∷ s) h =
    let e : is_digit c ≡ true = ground arith in rw e (scan_digits_all (acc * 10 + (c - b'0')) s h.1)

-- `strtol` on a text of digits alone.
strtol_digits :
    (c : ℕ) (s : Bytes)
    → AreDigits (c ∷ s)
    → strtol (c ∷ s) ≡ (clamp_long false (valued 0 (c ∷ s)), [])
unfolding strtol
strtol_digits c s h =
    let no_space : is_space c ≡ false = ground arith in
    let no_minus : (c == b'-') ≡ false = ground arith in
    let no_plus : (c == b'+') ≡ false = ground arith in
    let digit : is_digit c ≡ true = ground arith in
    let same : skip_blanks (c ∷ s) ≡ c ∷ s = unfold skip_blanks in rw no_space refl in
    let sign : scan_sign (c ∷ s) ≡ (false, c ∷ s) =
      unfold scan_sign in rw (no_minus, no_plus) refl in
    let number : scan_number (c ∷ s) false (c ∷ s) ≡ (clamp_long false (valued 0 (c ∷ s)), []) =
      unfold scan_number in rw (digit, scan_digits_all (0 + (c - b'0')) s h.1) refl in
    rw (same, sign) number

digits-AreDigits : (k n : ℕ) (text : Bytes) → AreDigits text → AreDigits (digits k n text)
unfolding digits
digits-AreDigits zero n text t = t
digits-AreDigits (suc k) n text t =
    ground
      (arith, digits-AreDigits k (n / 10) ((b'0' + n % 10) ∷ text) ((omega arith, omega arith), t))

-- Reading back the digits of a number that `k` digits can hold.
valued-digits :
    (k n : ℕ) (text : Bytes) → n < 10 ^ suc k → valued 0 (digits (suc k) n text) ≡ valued n text
unfolding digits
valued-digits zero n text h =
    let small : ltb n 10 ≡ true = ground arith in
    let e : 0 * 10 + (b'0' + n % 10 - b'0') ≡ n = omega arith in
    rw small (ap (λ m. valued m text) e)
valued-digits (suc k) n text h = elim (Bool-cases (ltb n 10)) [
  | inl small ↦
      let e : 0 * 10 + (b'0' + n % 10 - b'0') ≡ n = ground arith in
      rw small (ap (λ m. valued m text) e)
  | inr large ↦
      let e : n / 10 * 10 + (b'0' + n % 10 - b'0') ≡ n = omega arith in
      rw large (
        valued-digits k (n / 10) ((b'0' + n % 10) ∷ text) (omega (arith, pow-suc 10 (suc k)))
        ∙ ap (λ m. valued m text) e)
]

-- `n` zeros.
abbrev pub zeros : ℕ → Bytes
zeros zero = []
zeros (suc n) = b'0' ∷ zeros n

valued-zeros : (k : ℕ) (s : Bytes) → valued 0 (zeros k ++ s) ≡ valued 0 s
valued-zeros zero s = refl
valued-zeros (suc k) s = valued-zeros k s

zeros-AreDigits : (k : ℕ) (s : Bytes) → AreDigits s → AreDigits (zeros k ++ s)
zeros-AreDigits zero s h = h
zeros-AreDigits (suc k) s h = ((omega arith, omega arith), zeros-AreDigits k s h)

strtol_text :
    (s : Bytes) → 0 < length s → AreDigits s → strtol s ≡ (clamp_long false (valued 0 s), [])
strtol_text [] h d = absurd (omega arith)
strtol_text (c ∷ s) h d = strtol_digits c s d

length-digits-pos : (k n : ℕ) (text : Bytes) → length text < length (digits (suc k) n text)
unfolding digits
length-digits-pos zero n text = ground arith
length-digits-pos (suc k) n text =
    ground (arith, length-digits-pos k (n / 10) ((b'0' + n % 10) ∷ text))

-- A number below 2^32 that is written in decimal, with any number of zeros in front, is accepted
-- by `check_port` exactly if it lies between 1025 and 65535.
pub check_port-zeros :
    (k n : ℕ) → n < 2 ^ 32 → check_port (zeros k ++ int_to_string n) ≡ (ltb 1024 n && ltb n 65536)
unfolding check_port int_to_string clamp_long
check_port-zeros k n h =
    let e : n % 2 ^ 32 ≡ n = omega arith in
    let value : valued 0 (zeros k ++ digits 10 n []) ≡ n =
      valued-zeros k (digits 10 n []) ∙ valued-digits 9 n [] (omega arith) in
    let range : min n (2 ^ 63 - 1) ≡ n = omega arith in
    rw e (
      rw
        (strtol_text (zeros k ++ digits 10 n [])
          (omega (arith, length-append (zeros k) (digits 10 n []), length-digits-pos 9 n []))
          (zeros-AreDigits k (digits 10 n []) (digits-AreDigits 10 n [] tt)))
        (rw (value, range) refl))
