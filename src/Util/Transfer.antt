-- ===== src/Util/Transfer.antt =====
-- `read_from_fd` and `write_to_fd` move the whole buffer, however the system calls cut it up.
use gnutella.Base.{
  ◌^◌, ◌%◌, ◌∙◌, ℕ, ◌+◌, ◌≤◌, ◌<◌, ◌≡◌, refl, ap, Bytes, List, [], ◌∷◌, ◌++◌, some, arith, length,
  drop, length-append, append-nil, append_assoc, take-append-drop, length-drop,
}
use gnutella.Util.{
  ReadAnswer, got, read_failed, filled, ended, read_loop, read_from_fd, read_value, WriteAnswer,
  took, all_written, write_to_fd,
}

-- Answers that hand over some bytes each, and those that would come after them.
abbrev pub chunks : List Bytes → List ReadAnswer → List ReadAnswer
chunks [] more = more
chunks (c ∷ cs) more = got c ∷ chunks cs more

abbrev pub content : List Bytes → Bytes
content [] = []
content (c ∷ cs) = c ++ content cs

abbrev pub NonEmpty : List Bytes → Type 0
NonEmpty [] = Unit
NonEmpty (c ∷ cs) = (0 < length c) × NonEmpty cs

read_loop-full :
    (size : ℕ) (more : List ReadAnswer) (so_far : Bytes)
    → length so_far ≡ size
    → read_loop size more so_far ≡ filled so_far
unfolding read_loop
read_loop-full size [] so_far e = ground arith
read_loop-full size (read_failed ∷ more) so_far e = ground arith
read_loop-full size (got [] ∷ more) so_far e = ground arith
read_loop-full size (got (b ∷ bs) ∷ more) so_far e = ground arith

read_loop-content :
    (size : ℕ) (cs : List Bytes) (more : List ReadAnswer) (so_far : Bytes)
    → NonEmpty cs
    → length so_far + length (content cs) ≡ size
    → read_loop size (chunks cs more) so_far ≡ filled (so_far ++ content cs)
unfolding read_loop
read_loop-content size [] more so_far ne e =
    rw append-nil (read_loop-full size more so_far (omega arith))
read_loop-content size ([] ∷ cs) more so_far ne e = absurd (omega arith)
read_loop-content size ((b ∷ bs) ∷ cs) more so_far ne e = ground (
  arith,
  length-append bs (content cs),
  length-append so_far (b ∷ bs),
  append_assoc so_far (b ∷ bs) (content cs),
  read_loop-content size cs more (so_far ++ (b ∷ bs)) ne.1,
)

-- When `read` hands over as many bytes as `read_from_fd` was asked for, fewer than 2^31, in
-- non-empty pieces of whatever sizes, `read_from_fd` fills the buffer with them in order, asks no
-- further, and returns their number.
pub read_from_fd-content :
    (cs : List Bytes) (more : List ReadAnswer)
    → NonEmpty cs
    → length (content cs) < 2 ^ 31
    → (read_from_fd (length (content cs)) (chunks cs more) ≡ filled (content cs))
      × (read_value (read_from_fd (length (content cs)) (chunks cs more))
          ≡ some (length (content cs)))
unfolding read_from_fd read_value
read_from_fd-content cs more ne small =
    let e = read_loop-content (length (content cs)) cs more [] ne (omega arith) in
    let bits : length (content cs) % 2 ^ 32 ≡ length (content cs) = omega arith in
    (e, ap read_value e ∙ ap some bits)

read_loop-ended :
    (size : ℕ) (cs : List Bytes) (more : List ReadAnswer) (so_far : Bytes)
    → NonEmpty cs
    → length so_far + length (content cs) < size
    → read_loop size (chunks cs (got [] ∷ more)) so_far ≡ ended (so_far ++ content cs)
unfolding read_loop
read_loop-ended size [] more so_far ne h = rw append-nil (ground arith)
read_loop-ended size ([] ∷ cs) more so_far ne h = absurd (omega arith)
read_loop-ended size ((b ∷ bs) ∷ cs) more so_far ne h = ground (
  arith,
  length-append bs (content cs),
  length-append so_far (b ∷ bs),
  append_assoc so_far (b ∷ bs) (content cs),
  read_loop-ended size cs more (so_far ++ (b ∷ bs)) ne.1,
)

-- A stream that ends before the buffer is full makes `read_from_fd` return 0, with the bytes that
-- came in the front of the buffer and nothing in the rest of it.
read_from_fd_ended :
    (size : ℕ) (cs : List Bytes) (more : List ReadAnswer)
    → NonEmpty cs
    → length (content cs) < size
    → (read_from_fd size (chunks cs (got [] ∷ more)) ≡ ended (content cs))
      × (read_value (read_from_fd size (chunks cs (got [] ∷ more))) ≡ some 0)
unfolding read_from_fd read_value
read_from_fd_ended size cs more ne h =
    let e = read_loop-ended size cs more [] ne (omega arith) in (e, ap read_value e)

-- How many bytes the calls of `write` take, none of them zero.
abbrev pub taken : List ℕ → ℕ
taken [] = 0
taken (k ∷ ks) = k + taken ks

abbrev pub takes : List ℕ → List WriteAnswer
takes [] = []
takes (k ∷ ks) = took k ∷ takes ks

-- `write_to_fd` sends every byte of the buffer exactly once and in order, whatever the sizes that
-- the calls of `write` take, when these are enough for the buffer.
pub write_to_fd_whole :
    (buffer : Bytes) (ks : List ℕ)
    → length buffer ≤ taken ks
    → write_to_fd buffer (takes ks) ≡ (all_written, buffer)
unfolding write_to_fd
write_to_fd_whole [] ks h = refl
write_to_fd_whole (b ∷ bs) [] h = absurd (omega arith)
write_to_fd_whole (b ∷ bs) (k ∷ ks) h =
    rw (write_to_fd_whole (drop k (b ∷ bs)) ks (omega (arith, length-drop k (b ∷ bs))))
      (ap (λ more. (all_written, more)) (take-append-drop k (b ∷ bs)))
