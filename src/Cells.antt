-- ===== src/Cells.antt =====
-- list.c over an explicit heap of cells: `list_push_back_no_create`, `list_pop`, `list_pop_at`,
-- `list_clear`, and the loop of server.c that walks a list and takes cells out of it. The block
-- that `data` points at is the cell's value here and goes with the cell.
pub mod Seg
pub mod PushBack
pub mod Sweep
pub mod Clear
use gnutella.Base.{
  ℕ, zero, suc, ◌+◌, Bool, true, false, Option, none, some, ◌==◌, if◌then◌else◌, not, ◌&&◌, List,
  [], ◌∷◌,
}
use gnutella.Net.{
  Cmd, ok, fault, dangling, out_of_fuel, stop, pure, ◌>>=◌, ◌>>◌, get_state, put_state,
}

abbrev pub Ptr : Type 0
Ptr = ℕ

abbrev pub null : Ptr
null = 0

-- `cell_t`
pub record Cell (A : Type 0) : Type 0 where
  pub value : A
  pub next : Ptr

abbrev pub cell : {A : Type 0} → A → Ptr → Cell A
cell v q = record { value = v; next = q }

abbrev pub Heap : Type 0 → Type 0
Heap A = Ptr → Option (Cell A)

module _ {A : Type 0} where
  unfoldable pub write : Heap A → Ptr → Option (Cell A) → Heap A
  write h p c a = if p == a then c else h a

  -- A read through a pointer: NULL and freed cells are faults.
  unfoldable pub load : Ptr → Cmd (Heap A) (Cell A)
  load p h n =
      if p == null then fault dangling else elim (h p) [ none ↦ fault dangling | some c ↦ ok c h n ]

  unfoldable pub store : Ptr → Option (Cell A) → Cmd (Heap A) (Unit {0})
  store p c h n = ok tt (write h p c) n

  -- `p->next = q`
  unfoldable pub set_next : Ptr → Ptr → Cmd (Heap A) (Unit {0})
  set_next p q = do c ← load p; store p (some (cell c.value q))

  unfoldable pub free : Ptr → Cmd (Heap A) (Unit {0})
  free p = do c ← load p; store p none

  -- The walk of `list_push_back_no_create`: the last cell, or NULL.
  unfoldable pub last_cell : ℕ → (prev head : Ptr) → Cmd (Heap A) Ptr
  last_cell zero prev head = stop out_of_fuel
  last_cell (suc k) prev head =
      if head == null then pure prev else do c ← load head; last_cell k head c.next

  -- `list_push_back_no_create`; the list is its head, `fresh` what `malloc` returns.
  unfoldable pub list_push_back_no_create : ℕ → (fresh head : Ptr) → A → Cmd (Heap A) Ptr
  list_push_back_no_create fuel fresh head value = do
    prev ← last_cell fuel null head
    store fresh (some (cell value null))
    if prev == null then pure fresh else set_next prev fresh >> pure head

  -- `list_pop_at(list, &prev, &at)`: the list's new head, and the new `at`.
  unfoldable pub list_pop_at : (head prev at : Ptr) → Cmd (Heap A) (Ptr × Ptr)
  list_pop_at head prev at = do
    c ← load at
    if prev == null
        then (do free at; pure ((if c.next == null then null else head), c.next))
        else do set_next prev c.next; free at; pure (head, c.next)

  -- The loops of handle_awaiting_sockets, handle_pending_requests, update_log_timers and
  -- handle_pending_downloads: keep a cell and go on, or take it out with `list_pop_at`.
  unfoldable pub sweep_cells : (A → Bool) → ℕ → (head prev at : Ptr) → Cmd (Heap A) Ptr
  sweep_cells removes zero head prev at = stop out_of_fuel
  sweep_cells removes (suc k) head prev at = if at == null then pure head else do
    c ← load at
    if removes c.value
        then (do (head', at') ← list_pop_at head prev at; sweep_cells removes k head' prev at')
        else sweep_cells removes k head at c.next

  -- `list_pop(list, data, once)` with `matches v` for `compare(data, v) == 1`.
  unfoldable pub list_pop : (A → Bool) → Bool → ℕ → (head prev at : Ptr) → Cmd (Heap A) Ptr
  list_pop matches once zero head prev at = stop out_of_fuel
  list_pop matches once (suc k) head prev at = if at == null then pure head else do
    c ← load at
    let unlinked = if prev == null then c.next else head
    if not (matches c.value) then list_pop matches once k head at c.next else do
      (if prev == null then pure tt else set_next prev c.next)
      free at
      if once
          then pure unlinked
          else do d ← load c.next; list_pop matches once k unlinked c.next d.next

  -- `list_clear`; `list_destroy` calls it and frees the handle.
  unfoldable pub list_clear : ℕ → Ptr → Cmd (Heap A) (Unit {0})
  list_clear zero at = stop out_of_fuel
  list_clear (suc k) at =
      if at == null then pure tt else do c ← load at; free at; list_clear k c.next

-- What a list handle of the program stands for: the values in order, or a pointer to a freed cell.
pub data Chain (A : Type 0) : Type 0 where
  live : List A → Chain A
  hanging : Chain A

module _ {A : Type 0} (removes : A → Bool) where
  unfoldable pub kept_values : List A → List A
  kept_values [] = []
  kept_values (x ∷ xs) = let rest = kept_values xs in if removes x then rest else x ∷ rest

  unfoldable pub all_removed : List A → Bool
  all_removed [] = true
  all_removed (x ∷ xs) = removes x && all_removed xs

  -- What a sweep makes of a list: `list_pop_at` moves the handle only when it takes out a first
  -- cell that is also the last.
  unfoldable pub swept : List A → Chain A
  swept [] = live []
  swept (x ∷ xs) =
      if removes x then (if all_removed xs then live [] else hanging) else live (x ∷ kept_values xs)
