-- ===== src/Server/Files/Contents.antt =====
-- Files are read whole, and what a download leaves in the directory.
use gnutella.Base.{
  ℕ, ◌^◌, ◌<◌, leb, sym, length-append, zero, suc, ◌+◌, ◌*◌, ◌≤◌, ◌≡◌, refl, ◌∙◌, ap, false, Bytes,
  true, [], ◌∷◌, ◌++◌, Option, none, some, arith, length, take, drop, length-drop, take-append-drop,
  append_assoc, append-nil, str_eq, str_eq_iff, if◌then◌else◌, Bool-cases, inl, inr, ◌==◌,
}
use gnutella.Server.Files.{whole, Disk, find_file, listed, read_chunks, write_file}

some_taken : (m b : ℕ) (bs : Bytes) → (length (take (suc m) (b ∷ bs)) == 0) ≡ false
some_taken m b bs = ground arith

not_wrapped : (n : ℕ) → n < 2 ^ 32 → leb (2 ^ 32) n ≡ false
not_wrapped n h = ground arith

read_chunks-append :
    (k : ℕ) (left buffer : Bytes)
    → length left + 100 ≤ k * 100
    → length buffer + length left + 100 < 2 ^ 32
    → read_chunks k left buffer ≡ whole (buffer ++ left)
unfolding read_chunks
read_chunks-append zero left buffer h small = absurd (omega arith)
read_chunks-append (suc k) [] buffer h small = rw append-nil refl
read_chunks-append (suc k) (b ∷ bs) buffer h small =
    let chunk : Bytes = take 100 (b ∷ bs) in
    let left : Bytes = drop 100 (b ∷ bs) in
    let parts : chunk ++ left ≡ b ∷ bs = take-append-drop 100 (b ∷ bs) in
    let sum : length chunk + length left ≡ length (b ∷ bs) =
      sym (length-append chunk left) ∙ ap length parts in
    let fits : leb (2 ^ 32) (length buffer + length chunk + 100) ≡ false =
      not_wrapped (length buffer + length chunk + 100) (omega (arith, sum)) in
    rw (some_taken 99 b bs, fits)
      (read_chunks-append k left (buffer ++ chunk) (omega (arith, length-drop 100 (b ∷ bs)))
          (omega (arith, length-append buffer chunk, sum))
        ∙ ap whole (append_assoc buffer chunk left ∙ ap (λ bytes. buffer ++ bytes) parts))

-- The loop that reads a file of fewer than 2^32 - 100 bytes, 100 bytes at a time, ends with the
-- whole file in the buffer, once its rounds can hold 100 bytes more than it.
pub read_chunks-whole :
    (k : ℕ) (file : Bytes)
    → length file + 100 ≤ k * 100
    → length file + 100 < 2 ^ 32
    → read_chunks k file [] ≡ whole file
read_chunks-whole k file h small = read_chunks-append k file [] h (omega arith)

-- The old content of a file, or nothing.
abbrev pub content_of : Option Bytes → Bytes
content_of none = []
content_of (some old) = old

drop-nil : (n : ℕ) → drop {A = ℕ} n [] ≡ []
drop-nil zero = refl
drop-nil (suc n) = refl

-- A write at the start of a file that is not truncated leaves the end of a longer old content
-- behind the new one; no other file changes.
pub find-write_file :
    (name other content : Bytes) (disk : Disk)
    → find_file other (write_file name content disk) ≡ (
        if str_eq name other
        then some (content ++ drop (length content) (content_of (find_file name disk)))
        else find_file other disk)
unfolding find_file write_file
find-write_file name other content [] = rw (drop-nil (length content), append-nil) refl
find-write_file name other content ((name', old) ∷ disk) = elim (Bool-cases (str_eq name' name)) [
  | inl same ↦
      let e : name' ≡ name = (str_eq_iff name' name).0 same in rw (same, e) (ground (arith, same))
  | inr differs ↦ rw differs (
      ground (
        arith,
        str_eq_iff name' name,
        str_eq_iff name other,
        str_eq_iff name' other,
        find-write_file name other content disk,
      ))
]

-- A file that the walk over the directory does not meet cannot be opened, and one that can be opened is met.
pub find_file-unlisted :
    (name : Bytes) (disk : Disk) → listed name disk ≡ false → find_file name disk ≡ none
unfolding listed find_file
find_file-unlisted name [] absent = refl
find_file-unlisted name ((other, content) ∷ disk) absent =
    ground (arith, find_file-unlisted name disk)

pub listed-found :
    (name : Bytes) (disk : Disk) {content : Bytes}
    → find_file name disk ≡ some content
    → listed name disk ≡ true
unfolding listed find_file
listed-found name [] found = absurd (cc)
listed-found name ((other, content) ∷ disk) {content = old_content} found =
    ground (arith, listed-found name disk {content = old_content})

-- A file that was not in the directory is there whole once it has been written.
pub find-write_file-new :
    (name content : Bytes) (disk : Disk)
    → listed name disk ≡ false
    → find_file name (write_file name content disk) ≡ some content
find-write_file-new name content disk absent =
    let same : str_eq name name ≡ true = (str_eq_iff name name).1 refl in
    find-write_file name name content disk
    ∙ rw (same, find_file-unlisted name disk absent, drop-nil (length content), append-nil) refl
