-- ===== src/Util/Blocks.antt =====
-- util.c: texts in blocks of a given size, what is freed, and `millisleep`.
use gnutella.Base.{
  ℕ, ◌+◌, ◌*◌, ◌/◌, ◌%◌, ◌^◌, ◌<◌, ◌≡◌, refl, true, false, Bytes, arith, length, ltb, if◌then◌else◌,
}
use gnutella.Util.{int_to_string, get_number_of_digits_in}
use gnutella.Util.Decimal.{length-int_to_string}
use gnutella.Util.Clock.{instant}

-- A block behind a call: as it was, with a text, or written past its end.
pub data Block : Type 0 where
  untouched : Block
  text : Bytes → Block
  too_small : Block

-- A C string with its NUL put into a block of `room` bytes.
unfoldable pub put_text : (room : ℕ) → Bytes → Block
put_text room s = if ltb (length s) room then text s else too_small

-- `int_to_cstring` for `src >= 0`: `malloc(length)` and `sprintf`.
unfoldable pub int_to_cstring : ℕ → Block
int_to_cstring src = put_text (get_number_of_digits_in src) (int_to_string src)

-- `set_string`: `malloc(strlen(content) + 1)` and `strcpy`.
unfoldable pub set_string : Bytes → Block
set_string content = put_text (length content + 1) content

-- `millisleep`: the seconds and nanoseconds that `nanosleep` gets.
unfoldable pub millisleep : ℕ → ℕ × ℕ
millisleep milliseconds = (milliseconds / 1000, milliseconds % 1000 * 1000 * 1000)

-- For every number from 0 to 2^31 - 1, `int_to_cstring` writes the terminator of the text past its
-- block.
pub int_to_cstring_overflows : (src : ℕ) → src < 2 ^ 31 → int_to_cstring src ≡ too_small
unfolding int_to_cstring put_text
int_to_cstring_overflows src h =
    let full : ltb (length (int_to_string src)) (get_number_of_digits_in src) ≡ false =
      ground (arith, length-int_to_string src (omega arith)) in
    rw full refl

pub set_string_lem : (content : Bytes) → set_string content ≡ text content
unfolding set_string put_text
set_string_lem content =
    let fits : ltb (length content) (length content + 1) ≡ true = ground arith in rw fits refl

-- The time that `millisleep` asks for, with nanoseconds below one second.
pub millisleep_lem :
    (milliseconds : ℕ)
    → (instant (millisleep milliseconds).0 (millisleep milliseconds).1 ≡ milliseconds * 1000000)
      × ((millisleep milliseconds).1 < 1000000000)
unfolding millisleep
millisleep_lem milliseconds = (omega arith, omega arith)
