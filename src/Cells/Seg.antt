-- ===== src/Cells/Seg.antt =====
-- Lists in the heap: the cells that the `next` pointers lead through, up to NULL.
use gnutella.Base.{◌≡◌, refl, ◌≢◌, false, Option, none, some, List, [], ◌∷◌, arith, ◌==◌, map}
use gnutella.Net.{Net, ok}
use gnutella.Cells.{Ptr, null, Cell, cell, Heap, write, load, store, set_next, free}

-- Address and value of each cell, in order.
abbrev pub Cells : Type 0 → Type 0
Cells A = List (Ptr × A)

module _ {A : Type 0} where
  -- `p` is none of the addresses.
  abbrev pub Away : Ptr → Cells A → Type 0
  Away p [] = Unit
  Away p ((q, _) ∷ xs) = (p ≢ q) × Away p xs

  -- `p` is a cell with value `v` and successor `q`.
  pub record Points (h : Heap A) (p : Ptr) (v : A) (q : Ptr) : Type 0 where
    pub ne_null : p ≢ null
    pub holds : h p ≡ some (cell v q)

  pub data Seg (h : Heap A) : Ptr → Cells A → Type 0 where
    nil : Seg h null []
    cons :
        {p q : Ptr} {v : A} {xs : Cells A}
        → Points h p v q
        → Away p xs
        → Seg h q xs
        → Seg h p ((p, v) ∷ xs)

  -- The values of a list.
  abbrev pub values : Cells A → List A
  values = map (λ (_, v). v)

  -- `g` differs from `h` at most at the cells of `xs`.
  abbrev pub SameOutside : Cells A → Heap A → Heap A → Type 0
  SameOutside xs h g = (a : Ptr) → Away a xs → g a ≡ h a

  pub write-ne : (h : Heap A) {p a : Ptr} (c : Option (Cell A)) → p ≢ a → write h p c a ≡ h a
  unfolding write
  write-ne h c ne = ground arith

  pub write-eq : (h : Heap A) (p : Ptr) (c : Option (Cell A)) → write h p c p ≡ c
  unfolding write
  write-eq h p c = ground arith

  pub frame-write :
      {h : Heap A} {p : Ptr} {xs : Cells A} (a : Ptr) (c : Option (Cell A))
      → Seg h p xs
      → Away a xs
      → Seg (write h a c) p xs
  frame-write a c nil away = nil
  frame-write {h} a c (cons e out s) away =
      cons (record { ne_null = e.ne_null; holds = rw (write-ne h c away.0) e.holds }) out
        (frame-write a c s away.1)

  module _ {h : Heap A} {p q : Ptr} {v : A} (e : Points h p v q) where
    pub not_null : (p == null) ≡ false
    not_null = ground (arith, e.ne_null)

    pub load-ok : (n : Net) → load p h n ≡ ok (cell v q) h n
    unfolding load
    load-ok n = rw (not_null, e.holds) refl

    pub set_next-ok : (r : Ptr) (n : Net) → set_next p r h n ≡ ok tt (write h p (some (cell v r))) n
    unfolding set_next store
    set_next-ok r n = rw (load-ok n) refl

    pub free-ok : (n : Net) → free p h n ≡ ok tt (write h p none) n
    unfolding free store
    free-ok n = rw (load-ok n) refl

  -- Writing one cell and freeing another spares what neither touches.
  pub Points-write :
      {h : Heap A} {p q : Ptr} {v : A} {a : Ptr} (c : Option (Cell A))
      → Points h p v q
      → a ≢ p
      → Points (write h a c) p v q
  Points-write {h} c e ne = record { ne_null = e.ne_null; holds = rw (write-ne h c ne) e.holds }
