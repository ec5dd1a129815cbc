-- ===== src/Cells/Sweep.antt =====
-- The loops that walk a list and take cells out of it with `list_pop_at`: what they leave, and
-- when the handle is left pointing at a freed cell.
use gnutella.Base.{
  ℕ, zero, suc, ◌<◌, ◌≡◌, refl, ◌∙◌, ◌≢◌, Bool, true, false, none, some, [], ◌∷◌, arith, length, ap,
  sym, Bool-cases, inl, inr, if◌then◌else◌, ◌==◌,
}
use gnutella.Net.{Net, ok}
use gnutella.Net.Laws.{bind-ok}
use gnutella.Cells.{
  Ptr, null, cell, Heap, write, load, set_next, free, list_pop_at, sweep_cells, Chain, live,
  hanging, kept_values, all_removed, swept,
}
use gnutella.Cells.Seg.{
  Cells, Away, Points, Seg, nil, cons, values, SameOutside, write-ne, write-eq, frame-write,
  not_null, load-ok, set_next-ok, free-ok, Points-write,
}

module _ {A : Type 0} (removes : A → Bool) where
  -- The cells that stay.
  abbrev pub kept : Cells A → Cells A
  kept [] = []
  kept ((p, v) ∷ xs) = let rest = kept xs in if removes v then rest else (p, v) ∷ rest

  Away-kept : (p : Ptr) (xs : Cells A) → Away p xs → Away p (kept xs)
  Away-kept p [] away = tt
  Away-kept p ((q, v) ∷ xs) away = ground (arith, Away-kept p xs away.1)

  values-kept : (xs : Cells A) → values (kept xs) ≡ kept_values removes (values xs)
  unfolding kept_values
  values-kept [] = refl
  values-kept ((p, v) ∷ xs) = ground (arith, values-kept xs)

module _ {A : Type 0} (n : Net) where
  -- `list_pop_at` with a predecessor: it is linked past the cell, and the cell is freed.
  pop_at-linked :
      {h : Heap A} (head : Ptr) {prev p q : Ptr} {v w : A}
      → Points h prev v p
      → Points h p w q
      → prev ≢ p
      → list_pop_at head prev p h n ≡ ok (head, q) (write (write h prev (some (cell v q))) p none) n
  unfolding list_pop_at
  pop_at-linked {h} head {prev} {p} {q} e f ne =
      bind-ok (load p) _ (load-ok f n)
      ∙ rw (not_null e) (
          bind-ok (set_next prev q) _ (set_next-ok e q n)
          ∙ bind-ok (free p) _ (free-ok (Points-write _ f ne) n))

  -- `list_pop_at` with no predecessor: the cell is freed, and the handle changes only if it was
  -- the last one.
  pop_at-first :
      {h : Heap A} (head : Ptr) {p q : Ptr} {w : A}
      → Points h p w q
      → list_pop_at head null p h n ≡ ok ((if q == null then null else head), q) (write h p none) n
  unfolding list_pop_at
  pop_at-first head {p} f = bind-ok (load p) _ (load-ok f n) ∙ bind-ok (free p) _ (free-ok f n)

-- One round of the loop.
module _ {A : Type 0} (removes : A → Bool) (k : ℕ) (head : Ptr) (n : Net) where
  round_end :
      (prev : Ptr) (h : Heap A) → sweep_cells removes (suc k) head prev null h n ≡ ok head h n
  unfolding sweep_cells
  round_end prev h = refl

  module _ {h : Heap A} {p q : Ptr} {w : A} (f : Points h p w q) where
    round_stays :
        (prev : Ptr)
        → removes w ≡ false
        → sweep_cells removes (suc k) head prev p h n ≡ sweep_cells removes k head p q h n
    unfolding sweep_cells
    round_stays prev stays = rw (not_null f) (bind-ok (load p) _ (load-ok f n) ∙ rw stays refl)

    round_linked :
        {prev : Ptr} {v : A}
        → Points h prev v p
        → prev ≢ p
        → removes w ≡ true
        → sweep_cells removes (suc k) head prev p h n
          ≡ sweep_cells removes k head prev q (write (write h prev (some (cell v q))) p none) n
    unfolding sweep_cells
    round_linked {prev} e ne gone = rw (not_null f) (
        bind-ok (load p) _ (load-ok f n)
        ∙ rw gone (bind-ok (list_pop_at head prev p) _ (pop_at-linked n head e f ne)))

    round_first :
        removes w ≡ true
        → sweep_cells removes (suc k) head null p h n
          ≡ sweep_cells removes k (if q == null then null else head) null q (write h p none) n
    unfolding sweep_cells
    round_first gone = rw (not_null f) (
        bind-ok (load p) _ (load-ok f n)
        ∙ rw gone (bind-ok (list_pop_at head null p) _ (pop_at-first n head f)))

module _ {A : Type 0} (removes : A → Bool) (head : Ptr) (n : Net) where
  -- The rest of a sweep behind a cell that was kept.
  record Behind (k : ℕ) (h : Heap A) (prev cur : Ptr) (v : A) (xs : Cells A) : Type 0 where
    heap : Heap A
    runs : sweep_cells removes k head prev cur h n ≡ ok head heap n
    chain : Seg heap prev ((prev, v) ∷ kept removes xs)
    same : SameOutside ((prev, v) ∷ xs) h heap

  sweep-Behind :
      (k : ℕ) {h : Heap A} {prev cur : Ptr} {v : A} {xs : Cells A}
      → Points h prev v cur
      → Away prev xs
      → Seg h cur xs
      → length xs < k
      → Behind k h prev cur v xs
  sweep-Behind zero e out s fuel = absurd (omega arith)
  sweep-Behind (suc k) {h} {prev} e out nil fuel = record {
    heap = h;
    runs = round_end removes k head n prev h;
    chain = cons e tt nil;
    same = λ a away. refl;
  }
  sweep-Behind (suc k) {h} {prev} {v} e out (cons {p} {q} {v = w} {xs} f out' s) fuel =
      elim (Bool-cases (removes w)) [
        | inl gone ↦
            let e' : Points (write (write h prev (some (cell v q))) p none) prev v q = record {
              ne_null = e.ne_null;
              holds = write-ne _ none (λ i. out.0 (sym i)) ∙ write-eq h prev _;
            } in
            let s' = frame-write p none (frame-write prev (some (cell v q)) s out.1) out' in
            let r = sweep-Behind k e' out.1 s' (omega arith) in
            record {
              heap = r.heap;
              runs = round_linked removes k head n f e out.0 gone ∙ r.runs;
              chain = rw gone r.chain;
              same = λ a away.
                  r.same a (away.0, away.1.1)
                  ∙ write-ne _ none (λ i. away.1.0 (sym i))
                  ∙ write-ne h _ (λ i. away.0 (sym i));
            }
        | inr stays ↦
            let r = sweep-Behind k f out' s (omega arith) in
            record {
              heap = r.heap;
              runs = round_stays removes k head n f prev stays ∙ r.runs;
              chain = rw stays (
                  cons (record { ne_null = e.ne_null; holds = r.same prev out ∙ e.holds })
                    (out.0, Away-kept removes prev xs out.1) r.chain);
              same = λ a away. r.same a away.1;
            }
      ]

-- The handle `p` stands for a chain: a list with these values, or a cell that was freed.
abbrev pub Stands : {A : Type 0} → Heap A → Ptr → Chain A → Type 0
Stands {A} h p (live ys) = (xs : Cells A) × Seg h p xs × (values xs ≡ ys)
Stands h p hanging = (p ≢ null) × (h p ≡ none)

module _ {A : Type 0} (removes : A → Bool) (n : Net) where
  -- The run of removals that begins at the first cell, when the handle already hangs.
  record Hung (k : ℕ) (h : Heap A) (head cur : Ptr) (xs : Cells A) : Type 0 where
    heap : Heap A
    final : Ptr
    runs : sweep_cells removes k head null cur h n ≡ ok final heap n
    stands : Stands heap final (if all_removed removes (values xs) then live [] else hanging)

  module _ (head : Ptr) (ne : head ≢ null) where
    -- The run ends at a cell that stays.
    Hung-stays :
        (k : ℕ) {h : Heap A} {cur p : Ptr} {w : A} {xs : Cells A}
        → h head ≡ none
        → Away head ((p, w) ∷ xs)
        → Points h p w cur
        → Away p xs
        → Seg h cur xs
        → length xs < k
        → removes w ≡ false
        → Hung (suc k) h head p ((p, w) ∷ xs)
    unfolding all_removed
    Hung-stays k hangs aw f out s fuel stays =
        let r = sweep-Behind removes head n k f out s fuel in
        record {
          heap = r.heap;
          final = head;
          runs = round_stays removes k head n f null stays ∙ r.runs;
          stands = rw stays (ne, r.same head aw ∙ hangs);
        }

    sweep-Hung :
        (k : ℕ) {h : Heap A} {cur p : Ptr} {w : A} {xs : Cells A}
        → h head ≡ none
        → Away head ((p, w) ∷ xs)
        → Points h p w cur
        → Away p xs
        → Seg h cur xs
        → suc (length xs) < k
        → Hung k h head p ((p, w) ∷ xs)
    unfolding all_removed
    sweep-Hung zero hangs aw f out s fuel = absurd (omega arith)
    sweep-Hung (suc zero) hangs aw f out s fuel = absurd (omega arith)
    sweep-Hung (suc (suc k)) {h} {p} {w} hangs aw f out nil fuel = elim (Bool-cases (removes w)) [
      | inl gone ↦ record {
        heap = write h p none;
        final = null;
        runs = round_first removes (suc k) head n f gone ∙ round_end removes k null n null _;
        stands = rw gone ([], nil, refl);
      }
      | inr stays ↦ Hung-stays (suc k) hangs aw f out nil (omega arith) stays
    ]
    sweep-Hung (suc (suc k)) {h} {p} {w} hangs aw f out (cons f' out' s) fuel =
        elim (Bool-cases (removes w)) [
          | inl gone ↦
              let r =
                sweep-Hung (suc k) (write-ne h none (λ i. aw.0 (sym i)) ∙ hangs) aw.1
                  (Points-write none f' out.0) out' (frame-write p none s out.1) (omega arith) in
              record {
                heap = r.heap;
                final = r.final;
                runs = round_first removes (suc k) head n f gone ∙ rw (not_null f') r.runs;
                stands = rw gone r.stands;
              }
          | inr stays ↦ Hung-stays (suc k) hangs aw f out (cons f' out' s) (omega arith) stays
        ]

  first_gone :
      (k : ℕ) {h : Heap A} {p q : Ptr} {w : A} {ys : Cells A}
      → Seg h q ys
      → Points h p w q
      → Away p ys
      → removes w ≡ true
      → length ys < k
      → (g : Heap A) × (head' : Ptr) × (sweep_cells removes (suc k) p null p h n ≡ ok head' g n)
        × Stands g head' (swept removes (w ∷ values ys))
  unfolding swept all_removed
  first_gone zero s f out gone fuel = absurd (omega arith)
  first_gone (suc k) {h} {p} nil f out gone fuel = (
    write h p none,
    null,
    round_first removes (suc k) p n f gone ∙ round_end removes k null n null _,
    rw gone ([], nil, refl),
  )
  first_gone (suc k) {h} {p} (cons e o t) f out gone fuel =
      let r =
        sweep-Hung p f.ne_null (suc k) (write-eq h p none) out (Points-write none e out.0) o
          (frame-write p none t out.1) fuel in
      (
        r.heap,
        r.final,
        round_first removes (suc k) p n f gone ∙ rw (not_null e) r.runs,
        rw gone r.stands,
      )

  -- A loop of the server that walks a list and takes cells out with `list_pop_at`, with more
  -- rounds than the list has cells, makes no bad access and leaves the handle as `swept` says: on
  -- the values that stay if the first one stays, on NULL if all go, and otherwise on a freed cell.
  pub sweep_cells-swept :
      (k : ℕ) {h : Heap A} {head : Ptr} {xs : Cells A}
      → Seg h head xs
      → length xs < k
      → (g : Heap A) × (head' : Ptr) × (sweep_cells removes k head null head h n ≡ ok head' g n)
        × Stands g head' (swept removes (values xs))
  unfolding swept all_removed
  sweep_cells-swept zero s fuel = absurd (omega arith)
  sweep_cells-swept (suc k) {h} nil fuel =
      (h, null, round_end removes k null n null h, ([], nil, refl))
  sweep_cells-swept (suc k) {h} (cons {p} {v = w} {xs} f out s) fuel =
      elim (Bool-cases (removes w)) [
        | inl gone ↦ first_gone k s f out gone (omega arith)
        | inr stays ↦
            let r = sweep-Behind removes p n k f out s (omega arith) in
            (
              r.heap,
              p,
              round_stays removes k p n f null stays ∙ r.runs,
              rw stays
                  ((p, w) ∷ kept removes xs, r.chain, ap (λ ys. w ∷ ys) (values-kept removes xs)),
            )
      ]
