-- ===== src/Cells/Clear.antt =====
-- `list_clear` frees every cell of a list, once, and nothing else.
use gnutella.Base.{ℕ, zero, suc, ◌<◌, ◌≡◌, refl, ◌∙◌, none, [], ◌∷◌, arith, length, sym}
use gnutella.Net.{Net, ok}
use gnutella.Net.Laws.{bind-ok}
use gnutella.Cells.{Ptr, null, Heap, write, load, free, list_clear}
use gnutella.Cells.Seg.{
  Cells, Points, Seg, nil, cons, SameOutside, write-ne, write-eq, frame-write, not_null, load-ok,
  free-ok,
}

module _ {A : Type 0} (n : Net) where
  -- No cell of `xs` is left.
  abbrev pub AllFreed : Heap A → Cells A → Type 0
  AllFreed g [] = Unit
  AllFreed g ((p, _) ∷ xs) = (g p ≡ none) × AllFreed g xs

  clear-next :
      (k : ℕ) {h : Heap A} {p q : Ptr} {v : A}
      → Points h p v q
      → list_clear (suc k) p h n ≡ list_clear k q (write h p none) n
  unfolding list_clear
  clear-next k {p} e =
      rw (not_null e) (bind-ok (load p) _ (load-ok e n) ∙ bind-ok (free p) _ (free-ok e n))

  clear-null : (k : ℕ) (h : Heap A) → list_clear (suc k) null h n ≡ ok tt h n
  unfolding list_clear
  clear-null k h = refl

  -- `list_clear` with more rounds than the list has cells frees every one of its cells without
  -- touching a freed one, and changes no other cell.
  pub list_clear-frees :
      (k : ℕ) {h : Heap A} {p : Ptr} {xs : Cells A}
      → Seg h p xs
      → length xs < k
      → (g : Heap A) × (list_clear k p h n ≡ ok tt g n) × AllFreed g xs × SameOutside xs h g
  list_clear-frees zero s fuel = absurd (omega arith)
  list_clear-frees (suc k) {h} nil fuel = (h, clear-null k h, tt, λ a away. refl)
  list_clear-frees (suc k) {h} (cons {p} e out s) fuel =
      let (g, runs, freed, same) = list_clear-frees k (frame-write p none s out) (omega arith) in
      (
        g,
        clear-next k e ∙ runs,
        (same p out ∙ write-eq h p none, freed),
        λ a away. same a away.1 ∙ write-ne h none (λ i. away.0 (sym i)),
      )
