-- ===== src/Boot/Steps.antt =====
-- One round of the loops over `argv`, and the words at its position.
use gnutella.Base.{
  ℕ, suc, ◌+◌, ◌<◌, ◌≤◌, ◌≡◌, refl, true, false, Bytes, List, [], ◌∷◌, ◌++◌, none, some, arith,
  length, length-append, get_elem?, leb,
}
use gnutella.Boot.{Advance, proceed, with_one, argv_loop}

-- A position behind a prefix.
pub get_elem?-append :
    {A : Type 0} (pre xs : List A) (j : ℕ) → get_elem? (pre ++ xs) (length pre + j) ≡ get_elem? xs j
get_elem?-append [] xs j = let e : 0 + j ≡ j = omega arith in rw e refl
get_elem?-append (p ∷ pre) xs j =
    let e : suc (length pre) + j ≡ suc (length pre + j) = omega arith in
    rw e (get_elem?-append pre xs j)

pub get_elem?-here :
    {A : Type 0} (pre xs : List A) → get_elem? (pre ++ xs) (length pre) ≡ get_elem? xs 0
get_elem?-here [] xs = refl
get_elem?-here (p ∷ pre) xs = get_elem?-here pre xs

pub get_elem?-length : {A : Type 0} (xs : List A) → get_elem? xs (length xs) ≡ none
get_elem?-length [] = refl
get_elem?-length (x ∷ xs) = get_elem?-length xs

pub enough :
    (pre words : List Bytes) (n : ℕ)
    → n < length words
    → leb (length (pre ++ words)) (length pre + n) ≡ false
enough pre words n h = ground (arith, length-append pre words)

pub short :
    (pre words : List Bytes) (n : ℕ)
    → length words ≤ n
    → leb (length (pre ++ words)) (length pre + n) ≡ true
short pre words n h = ground (arith, length-append pre words)

pub at_one :
    {A : Type 0} (pre : List Bytes) (w a : Bytes) (more : List Bytes) (few : A)
    (consume : Bytes → Advance A)
    → with_one (pre ++ w ∷ a ∷ more) (length pre) few consume ≡ consume a
at_one pre w a more few consume =
    rw (enough pre (w ∷ a ∷ more) 1 (omega arith), get_elem?-append pre (w ∷ a ∷ more) 1) refl

pub loop-step :
    {A : Type 0} (body : ℕ → Bytes → A → Advance A) (argv : List Bytes) (k i : ℕ) (s : A)
    {value : Bytes} {increment : ℕ} {s' : A}
    → get_elem? argv i ≡ some value
    → body i value s ≡ proceed increment s'
    → argv_loop body argv (suc k) i s ≡ argv_loop body argv k (i + increment) s'
unfolding argv_loop
loop-step body argv k i s e f = rw (e, argv_loop) (rw f refl)
