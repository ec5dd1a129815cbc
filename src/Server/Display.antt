-- ===== src/Server/Display.antt =====
-- `display_neighbours` of server.c and the timer of `loop` that calls for it.
use gnutella.Base.{
  ℕ, zero, suc, ◌+◌, ◌-◌, ◌*◌, ◌≤◌, ◌<◌, ◌≡◌, refl, ap, Bool, true, false, Bytes, List, [], ◌∷◌,
  none, some, Option-cases, inl, inr, Bool-cases, arith, leb, ltb, if◌then◌else◌, map,
}
use gnutella.Net.{Os}
use gnutella.Util.{int_to_string}
use gnutella.Server.State.{Contact}
use gnutella.Server.Neighbours.{known_machines}

-- What is shown of a neighbour: the IP and the port of its socket, and its contact port.
pub record NeighbourLine : Type 0 where
  pub ip : Bytes
  pub port : Bytes
  pub contact : Bytes

-- `display_neighbours`: a line for each slot in use.
unfoldable pub display_neighbours : Os → List Contact → List NeighbourLine
display_neighbours os [] = []
display_neighbours os (c ∷ cs) =
    let later = display_neighbours os cs in
    elim c.sock [
      | none ↦ later
      | some fd ↦
          record { ip = os.peer_ip fd; port = int_to_string (os.peer_port fd); contact = c.port }
          ∷ later
    ]

-- The neighbours that are shown are those that SMSG_NEIGHBOURS lists, in the same order.
pub display_neighbours-known_machines :
    (os : Os) (cs : List Contact)
    → map (λ (line : NeighbourLine). (line.ip, line.contact)) (display_neighbours os cs)
      ≡ known_machines os cs
unfolding display_neighbours known_machines
display_neighbours-known_machines os [] = refl
display_neighbours-known_machines os (c ∷ cs) = elim (Option-cases c.sock) [
  | inl free ↦ rw free (display_neighbours-known_machines os cs)
  | inr (fd, used) ↦
      rw used (ap (λ t. (os.peer_ip fd, c.port) ∷ t) (display_neighbours-known_machines os cs))
]

-- `print_timer` in a round of `loop`: whether the neighbours are shown, and what it is afterwards.
unfoldable pub print_round : (print_timer time_diff : ℕ) → Bool × ℕ
print_round print_timer time_diff =
    if leb print_timer time_diff then (true, 10000) else (false, print_timer - time_diff)

-- The timer after some rounds, of which round `i` is given `diffs i`.
unfoldable pub print_timer_after : (ℕ → ℕ) → ℕ → ℕ
print_timer_after diffs zero = 10000
print_timer_after diffs (suc i) = (print_round (print_timer_after diffs i) (diffs i)).1

-- Whether round `i` shows the neighbours.
abbrev pub shows : (ℕ → ℕ) → ℕ → Bool
shows diffs i = (print_round (print_timer_after diffs i) (diffs i)).0

-- `time_diff` in round `i`, when round `k` takes `elapsed k` milliseconds.
unfoldable pub time_diffs : (ℕ → ℕ) → ℕ → ℕ
time_diffs elapsed zero = 50
time_diffs elapsed (suc i) = if ltb (elapsed i) 50 then 50 else elapsed i

time_diffs_ge : (elapsed : ℕ → ℕ) (i : ℕ) → 50 ≤ time_diffs elapsed i
unfolding time_diffs
time_diffs_ge elapsed zero = omega arith
time_diffs_ge elapsed (suc i) = ground arith

due_round : (t d : ℕ) → t ≤ d → (print_round t d).0 ≡ true
unfolding print_round
due_round t d h = ground arith

quiet_round : (t d : ℕ) → (print_round t d).0 ≡ false → (d < t) × ((print_round t d).1 + d ≡ t)
unfolding print_round
quiet_round t d h = ground arith

print_round_le : (t d : ℕ) → t ≤ 10000 → (print_round t d).1 ≤ 10000
unfolding print_round
print_round_le t d h = ground arith

module _ (diffs : ℕ → ℕ) (long : (i : ℕ) → 50 ≤ diffs i) where
  timer_le : (i : ℕ) → print_timer_after diffs i ≤ 10000
  unfolding print_timer_after
  timer_le zero = omega arith
  timer_le (suc i) = print_round_le (print_timer_after diffs i) (diffs i) (timer_le i)

  -- Without a display the timer goes down by 50 at least.
  next_timer :
      (i : ℕ)
      → shows diffs i ≡ false
      → print_timer_after diffs (suc i) + 50 ≤ print_timer_after diffs i
  unfolding print_timer_after
  next_timer i quiet =
      let (later, lowered) = quiet_round (print_timer_after diffs i) (diffs i) quiet in
      omega (arith, lowered, long i)

  shows_before :
      (k i : ℕ)
      → print_timer_after diffs i ≤ k * 50 + 50
      → (j : ℕ) × (i ≤ j) × (j ≤ i + k) × (shows diffs j ≡ true)
  shows_before zero i bound = (
    i,
    omega arith,
    omega arith,
    due_round (print_timer_after diffs i) (diffs i) (omega (arith, long i)),
  )
  shows_before (suc k) i bound = elim (Bool-cases (shows diffs i)) [
    | inl due ↦ (i, omega arith, omega arith, due)
    | inr quiet ↦
        let (j, from, to, due) = shows_before k (suc i) (omega (arith, next_timer i quiet)) in
        (j, omega arith, omega arith, due)
  ]

-- However long the rounds of `loop` take, the neighbours are shown in some round of any 200 rounds
-- that follow each other.
pub shows_within_200 :
    (elapsed : ℕ → ℕ) (i : ℕ)
    → (j : ℕ) × (i ≤ j) × (j < i + 200) × (shows (time_diffs elapsed) j ≡ true)
shows_within_200 elapsed i =
    let diffs : ℕ → ℕ = time_diffs elapsed in
    let (j, from, to, due) =
      shows_before diffs (time_diffs_ge elapsed) 199 i
        (omega (arith, timer_le diffs (time_diffs_ge elapsed) i)) in
    (j, from, omega arith, due)
