-- ===== src/Server/Main/Pending.antt =====
-- What `handle_pending_requests` leaves of the list of requests.
use gnutella.Base.{◌≡◌, refl, ◌∙◌, ap, Bool, true, List, [], ◌∷◌, map}
use gnutella.Net.{
  Os, Net, Run, ok, fault, exited, and_then, pure, ◌>>=◌, ◌>>◌, get_state, put_state,
}
use gnutella.Net.Invariants.{Always}
use gnutella.Cells.{Chain, live, hanging, swept, all_removed}
use gnutella.Server.State.{Server, Srv, Request, members}
use gnutella.Server.Loop.{visit, settle}
use gnutella.Server.Main.{handle_pending_request, handle_pending_requests}

abbrev marked : List Request → List (Request × Bool)
marked rs = map (λ r. (r, true)) rs

all_marked : (rs : List Request) → all_removed (λ (r, gone). gone) (marked rs) ≡ true
unfolding all_removed
all_marked [] = refl
all_marked (r ∷ rs) = all_marked rs

settle-marked : (rs : List Request) → settle (marked rs) ≡ live []
unfolding settle swept all_removed
settle-marked [] = refl
settle-marked (r ∷ rs) = rw (all_marked rs, settle, swept) refl

-- What a run returns, when it returns.
abbrev Returns : {A : Type 0} → A → Run Server A → Type 0
Returns x (ok a s n) = a ≡ x
Returns x (fault e) = Unit
Returns x (exited c s n) = Unit

module _ (go : Request → Srv (Unit {0})) where
  abbrev handled : Request → Srv Bool
  handled r = go r >> pure true

  visit_rest :
      (r : Request) (rs : List Request) (run : Run Server (List (Request × Bool)))
      → Returns (marked rs) run
      → Returns (marked (r ∷ rs)) (and_then run λ rest. pure ((r, true) ∷ rest))
  visit_rest r rs (ok ms s n) e = ap (λ t. (r, true) ∷ t) e
  visit_rest r rs (fault e) h = tt
  visit_rest r rs (exited c s n) h = tt

  visit_head :
      (r : Request) (rs : List Request) (run : Run Server (Unit {0}))
      → ((s : Server) (n : Net) → Returns (marked rs) (visit handled rs s n))
      → Returns
          (marked (r ∷ rs))
          (and_then run λ _. visit handled rs >>= λ rest. pure ((r, true) ∷ rest))
  visit_head r rs (ok u s n) h = visit_rest r rs (visit handled rs s n) (h s n)
  visit_head r rs (fault e) h = tt
  visit_head r rs (exited c s n) h = tt

  and_then-pure :
      {B : Type 0} (run : Run Server (Unit {0})) (k : Bool → Srv B)
      → and_then (and_then run λ _. pure true) k ≡ and_then run (λ _. k true)
  and_then-pure (ok u s n) k = refl
  and_then-pure (fault e) k = refl
  and_then-pure (exited c s n) k = refl

  visit-marked :
      (rs : List Request) (s : Server) (n : Net) → Returns (marked rs) (visit handled rs s n)
  unfolding visit
  visit-marked [] s n = refl
  visit-marked (r ∷ rs) s n =
      rw (and_then-pure (go r s n) (λ gone. visit handled rs >>= λ rest. pure ((r, gone) ∷ rest)))
        (visit_head r rs (go r s n) (visit-marked rs))

abbrev Emptied : Server → Type 0
Emptied s = s.pending_requests ≡ live []

stored :
    (rs : List Request) (run : Run Server (List (Request × Bool)))
    → Returns (marked rs) run
    → Always Emptied (
        and_then run
          λ ms. get_state >>= λ after. put_state (record after { pending_requests = settle ms }))
stored rs (ok ms s n) e = ap settle e ∙ settle-marked rs
stored rs (fault e) h = tt
stored rs (exited c s n) h = tt

-- Whatever the requests are and however the other machines answer, the server that
-- `handle_pending_requests` returns has an empty list of requests, with a handle that is good.
pub handle_pending_requests-Emptied :
    (os : Os) (s : Server) (n : Net)
    → Always (λ s'. s'.pending_requests ≡ live []) (handle_pending_requests os s n)
unfolding handle_pending_requests members
handle_pending_requests-Emptied os s n = emptied s.pending_requests
  where
    emptied :
        (c : Chain Request)
        → Always Emptied (
            and_then (members c s n) λ requests.
              visit (λ r. handle_pending_request os r >> pure true) requests >>= λ ms.
              get_state >>= λ after. put_state (record after { pending_requests = settle ms }))
    emptied hanging = tt
    emptied (live rs) =
        stored rs (visit (λ r. handle_pending_request os r >> pure true) rs s n)
          (visit-marked (handle_pending_request os) rs s n)
