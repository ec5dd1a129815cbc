-- ===== src/Util.antt =====
-- util.c: the loops over `read` and `write`, comparisons, decimal text, the port test and the
-- elapsed time.
pub mod Transfer
pub mod Decimal
pub mod Ports
pub mod Clock
pub mod Blocks
pub mod Addresses
use gnutella.Base.{
  ℕ, zero, suc, ◌+◌, ◌-◌, ◌*◌, ◌/◌, ◌%◌, ◌^◌, Bool, true, false, not, ◌&&◌, ◌||◌, Bytes, List, [],
  ◌∷◌, ◌++◌, Option, none, some, if◌then◌else◌, ◌==◌, ltb, leb, length, take, drop,
}

-- What one call of `read` answers: bytes (none of them at the end of the stream), or -1.
pub data ReadAnswer : Type 0 where
  got : Bytes → ReadAnswer
  read_failed : ReadAnswer

-- What `read_from_fd` returns and the bytes that it has put into the buffer by then; `blocked`
-- means that `read` has not answered yet.
pub data ReadResult : Type 0 where
  filled : Bytes → ReadResult
  ended : Bytes → ReadResult
  broken : Bytes → ReadResult
  blocked : Bytes → ReadResult

-- The loop of `read_from_fd`: `so_far` is what stands in the buffer.
unfoldable pub read_loop : ℕ → List ReadAnswer → (so_far : Bytes) → ReadResult
read_loop size [] so_far = if leb size (length so_far) then filled so_far else blocked so_far
read_loop size (read_failed ∷ answers) so_far =
    if leb size (length so_far) then filled so_far else broken so_far
read_loop size (got [] ∷ answers) so_far =
    if leb size (length so_far) then filled so_far else ended so_far
read_loop size (got (b ∷ bs) ∷ answers) so_far =
    let rest = read_loop size answers (so_far ++ (b ∷ bs)) in
    if leb size (length so_far) then filled so_far else rest

unfoldable pub read_from_fd : ℕ → List ReadAnswer → ReadResult
read_from_fd size answers = read_loop size answers []

-- The bits of the `int` that `read_from_fd` returns, `none` for -1 and for a call that has not
-- returned.
unfoldable pub read_value : ReadResult → Option ℕ
read_value (filled bs) = some (length bs % 2 ^ 32)
read_value (ended bs) = some 0
read_value (broken bs) = none
read_value (blocked bs) = none

-- What one call of `write` answers: how many bytes it took, or -1.
pub data WriteAnswer : Type 0 where
  took : ℕ → WriteAnswer
  write_failed : WriteAnswer

pub data WriteResult : Type 0 where
  all_written : WriteResult
  not_written : WriteResult
  still_writing : WriteResult

-- `write_to_fd`: the result and the bytes that `write` took, in order. `left` is what starts at
-- `buffer + written`.
unfoldable pub write_to_fd : (left : Bytes) → List WriteAnswer → WriteResult × Bytes
write_to_fd [] answers = (all_written, [])
write_to_fd (b ∷ bs) [] = (still_writing, [])
write_to_fd (b ∷ bs) (write_failed ∷ answers) = (not_written, [])
write_to_fd (b ∷ bs) (took k ∷ answers) =
    let (result, more) = write_to_fd (drop k (b ∷ bs)) answers in (result, take k (b ∷ bs) ++ more)

-- The last digits of a number, in front of the text that is there already: `sprintf("%u")`.
unfoldable pub digits : ℕ → ℕ → Bytes → Bytes
digits zero n text = text
digits (suc k) n text =
    let text' = (b'0' + n % 10) ∷ text in
    let rest = digits k (n / 10) text' in if ltb n 10 then text' else rest

-- `int_to_string` with `n` as an `unsigned int`: at most ten digits.
unfoldable pub int_to_string : ℕ → Bytes
int_to_string n = digits 10 (n % 2 ^ 32) []

-- `get_number_of_digits_in` for `src >= 0`, whose digits are counted by dividing.
unfoldable pub count_digits : ℕ → ℕ → ℕ → ℕ
count_digits zero src nb = nb
count_digits (suc k) src nb =
    let rest = count_digits k (src / 10) (nb + 1) in if ltb src 10 then nb else rest

unfoldable pub get_number_of_digits_in : ℕ → ℕ
get_number_of_digits_in src = count_digits 10 src 1

-- The sign characters that `compare_ints` returns.
pub data Sign : Type 0 where
  minus nought plus : Sign

unfoldable pub compare_ints : ℕ → ℕ → Sign
compare_ints a b = if a == b then nought else if ltb a b then minus else plus

-- The bits of the `int` that a `long` or a `size_t` is turned into.
abbrev pub int_bits : ℕ → ℕ
int_bits n = n % 2 ^ 32

-- The bits of what `elapsed_time_since` returns, in milliseconds, for a clock that has not gone
-- back: seconds and nanoseconds of `begin` and of now.
unfoldable pub elapsed_time_since : (begin_s begin_ns now_s now_ns : ℕ) → ℕ
elapsed_time_since begin_s begin_ns now_s now_ns = int_bits (
    if ltb now_ns begin_ns
    then (now_s - begin_s - 1) * 1000 + ((now_ns + 1000000000 - begin_ns) / 1000) / 1000
    else (now_s - begin_s) * 1000 + ((now_ns - begin_ns) / 1000) / 1000)
