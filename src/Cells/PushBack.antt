-- ===== src/Cells/PushBack.antt =====
-- `list_push_back_no_create`: the new cell goes behind the others, for every length.
use gnutella.Base.{ℕ, zero, suc, ◌<◌, ◌≡◌, refl, ◌∙◌, ◌≢◌, some, [], ◌∷◌, ◌++◌, arith, length, sym}
use gnutella.Net.{Net, ok}
use gnutella.Net.Laws.{bind-ok}
use gnutella.Cells.{
  Ptr, null, cell, Heap, write, load, store, set_next, last_cell, list_push_back_no_create,
}
use gnutella.Cells.Seg.{
  Cells, Away, Points, Seg, nil, cons, write-ne, write-eq, not_null, load-ok, set_next-ok,
  Points-write,
}

Away-append :
    {A : Type 0} {p q : Ptr} (v : A) (xs : Cells A) → Away p xs → p ≢ q → Away p (xs ++ (q, v) ∷ [])
Away-append v [] away ne = (ne, tt)
Away-append v (x ∷ xs) away ne = (away.0, Away-append v xs away.1 ne)

module _ {A : Type 0} (h : Heap A) (fresh : Ptr) (v : A) where
  -- The heap after a fresh cell was linked behind the cell `last`.
  abbrev linked : Ptr → A → Heap A
  linked last u = write (write h fresh (some (cell v null))) last (some (cell u fresh))

  record Walk (k : ℕ) (p q : Ptr) (w : A) (xs : Cells A) (n : Net) : Type 0 where
    last : Ptr
    value : A
    runs : last_cell k p q h n ≡ ok last h n
    ends : Points h last value null
    inside : (a : Ptr) → Away a ((p, w) ∷ xs) → a ≢ last
    chain : Seg (linked last value) p (((p, w) ∷ xs) ++ (fresh, v) ∷ [])

  module _ (ne : fresh ≢ null) (n : Net) where
    last_cell-Walk :
        (k : ℕ) {p q : Ptr} {w : A} {xs : Cells A}
        → Points h p w q
        → Away p xs
        → Seg h q xs
        → Away fresh ((p, w) ∷ xs)
        → length xs < k
        → Walk k p q w xs n
    unfolding last_cell
    last_cell-Walk zero e out s aw fuel = absurd (omega arith)
    last_cell-Walk (suc k) {p} {w} e out nil aw fuel = record {
      last = p;
      value = w;
      runs = refl;
      ends = e;
      inside = λ a away. away.0;
      chain =
          cons (record { ne_null = e.ne_null; holds = write-eq _ p _ }) ((λ i. aw.0 (sym i)), tt)
            (cons
              (record {
                ne_null = ne;
                holds = write-ne _ _ (λ i. aw.0 (sym i)) ∙ write-eq h fresh _;
              })
              tt nil);
    }
    last_cell-Walk (suc k) {p} {w} e out (cons {p = q} {v = u} {xs} e' out' s) aw fuel =
        let r = last_cell-Walk k e' out' s aw.1 (omega arith) in
        record {
          last = r.last;
          value = r.value;
          runs = rw (not_null e') (bind-ok (load q) _ (load-ok e' n) ∙ r.runs);
          ends = r.ends;
          inside = λ a away. r.inside a away.1;
          chain =
              cons
                (record {
                  ne_null = e.ne_null;
                  holds = write-ne _ _ (λ i. r.inside p out (sym i)) ∙ write-ne h _ aw.0 ∙ e.holds;
                })
                (Away-append v ((q, u) ∷ xs) out (λ i. aw.0 (sym i))) r.chain;
        }

module _ {A : Type 0} (k : ℕ) (n : Net) where
  last_cell-null : (prev : Ptr) (h : Heap A) → last_cell (suc k) prev null h n ≡ ok prev h n
  unfolding last_cell
  last_cell-null prev h = refl

  last_cell-next :
      (prev : Ptr) {h : Heap A} {p q : Ptr} {w : A}
      → Points h p w q
      → last_cell (suc k) prev p h n ≡ last_cell k p q h n
  unfolding last_cell
  last_cell-next prev {p} e =
      rw (not_null e) (bind-ok (load p) (λ c. last_cell k p c.next) (load-ok e n))

module _ {A : Type 0} (fresh : Ptr) (v : A) (ne : fresh ≢ null) (n : Net) where
  -- `list_push_back_no_create` with an unused address from `malloc` and more rounds than the list
  -- has cells ends with a list of the same cells and the new one behind them.
  pub push_back-append :
      (fuel : ℕ) {h : Heap A} {head : Ptr} {xs : Cells A}
      → Seg h head xs
      → Away fresh xs
      → length xs < fuel
      → (g : Heap A) × (head' : Ptr) × (list_push_back_no_create fuel fresh head v h n
          ≡ ok head' g n)
        × Seg g head' (xs ++ (fresh, v) ∷ [])
  unfolding list_push_back_no_create store
  push_back-append zero s aw fuel = absurd (omega arith)
  push_back-append (suc k) {h} nil aw fuel = (
    write h fresh (some (cell v null)),
    fresh,
    bind-ok (last_cell (suc k) null null) _ (last_cell-null k n null h),
    cons (record { ne_null = ne; holds = write-eq h fresh _ }) tt nil,
  )
  push_back-append (suc k) {h} (cons {p} {q} {v = w} {xs} e out s) aw fuel =
      let r = last_cell-Walk h fresh v ne n k e out s aw (omega arith) in
      (
        linked h fresh v r.last r.value,
        p,
        bind-ok (last_cell (suc k) null p) _ (last_cell-next k n null e ∙ r.runs)
            ∙ rw (not_null r.ends) (
                bind-ok (set_next r.last fresh) _ (
                  set_next-ok (Points-write (some (cell v null)) r.ends (r.inside fresh aw)) fresh
                    n)),
        r.chain,
      )
