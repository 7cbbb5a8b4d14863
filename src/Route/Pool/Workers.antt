-- ===== src/Route/Pool/Workers.antt =====
-- The events that the workers hold, when one of the workers changes.
use mathlib.Core.List.{Perm}
use mathlib.Core.List.Perm
use jetstream_router.Common.{
  ℕ, zero, suc, ◌+◌, ◌≡◌, ◌⊎◌, ◌≢◌, refl, ap, subst, inl, inr, true, false, some, List, [], ◌∷◌,
  get_elem?, set, length, arith,
}
use jetstream_router.Event.{Event}
use jetstream_router.Route.Pool.{Worker, idle, busy, gone, all_gone, launch}

abbrev pub in_flight : List Worker → List Event
in_flight [] = []
in_flight (idle ∷ ws) = in_flight ws
in_flight (busy ev ∷ ws) = ev ∷ in_flight ws
in_flight (gone ∷ ws) = in_flight ws

pub in_flight-busy :
    (ws : List Worker) (i : ℕ) (ev : Event)
    → get_elem? ws i ≡ some idle
    → Perm (in_flight (set ws i (busy ev))) (ev ∷ in_flight ws)
unfolding get_elem? set
in_flight-busy [] i ev at = absurd (ground arith)
in_flight-busy (idle ∷ ws) zero ev at = Perm.refl (ev ∷ in_flight ws)
in_flight-busy (busy e ∷ ws) zero ev at = absurd (ground arith)
in_flight-busy (gone ∷ ws) zero ev at = absurd (ground arith)
in_flight-busy (idle ∷ ws) (suc i) ev at = in_flight-busy ws i ev at
in_flight-busy (gone ∷ ws) (suc i) ev at = in_flight-busy ws i ev at
in_flight-busy (busy e ∷ ws) (suc i) ev at =
    Perm.trans (Perm.cons e (in_flight-busy ws i ev at)) (Perm.swap ev e (in_flight ws))

pub in_flight-idle :
    (ws : List Worker) (i : ℕ) (ev : Event)
    → get_elem? ws i ≡ some (busy ev)
    → Perm (in_flight ws) (ev ∷ in_flight (set ws i idle))
unfolding get_elem? set
in_flight-idle [] i ev at = absurd (ground arith)
in_flight-idle (idle ∷ ws) zero ev at = absurd (ground arith)
in_flight-idle (busy e ∷ ws) zero ev at =
    let same : e ≡ ev = ground arith in
    subst (λ x. Perm (e ∷ in_flight ws) (x ∷ in_flight ws)) same (Perm.refl (e ∷ in_flight ws))
in_flight-idle (gone ∷ ws) zero ev at = absurd (ground arith)
in_flight-idle (idle ∷ ws) (suc i) ev at = in_flight-idle ws i ev at
in_flight-idle (gone ∷ ws) (suc i) ev at = in_flight-idle ws i ev at
in_flight-idle (busy e ∷ ws) (suc i) ev at =
    Perm.trans (Perm.cons e (in_flight-idle ws i ev at))
      (Perm.swap ev e (in_flight (set ws i idle)))

pub in_flight-gone :
    (ws : List Worker) (i : ℕ)
    → get_elem? ws i ≡ some idle
    → in_flight (set ws i gone) ≡ in_flight ws
unfolding get_elem? set
in_flight-gone [] i at = absurd (ground arith)
in_flight-gone (idle ∷ ws) zero at = refl
in_flight-gone (busy e ∷ ws) zero at = absurd (ground arith)
in_flight-gone (gone ∷ ws) zero at = absurd (ground arith)
in_flight-gone (idle ∷ ws) (suc i) at = in_flight-gone ws i at
in_flight-gone (gone ∷ ws) (suc i) at = in_flight-gone ws i at
in_flight-gone (busy e ∷ ws) (suc i) at = ground (arith, in_flight-gone ws i at)

-- A worker is among them that has returned.
abbrev pub HasGone : List Worker → Type 0
HasGone ws = (i : ℕ) × (get_elem? ws i ≡ some gone)

-- Where all have returned, nothing is in flight, and one that has is among them.
pub all_gone_lem :
    (ws : List Worker) → all_gone ws ≡ true → (in_flight ws ≡ []) × ((ws ≡ []) ⊎ HasGone ws)
unfolding all_gone get_elem?
all_gone_lem [] all = (refl, inl refl)
all_gone_lem (idle ∷ ws) all = absurd (ground arith)
all_gone_lem (busy e ∷ ws) all = absurd (ground arith)
all_gone_lem (gone ∷ ws) all = ((all_gone_lem ws all).0, inr (0, refl))

-- A write of another value leaves no new worker that has returned.
gone_before :
    (w : Worker) (ws : List Worker) (i j : ℕ)
    → w ≢ gone
    → get_elem? (set ws i w) j ≡ some gone
    → get_elem? ws j ≡ some gone
unfolding get_elem? set
gone_before w [] i j other at = at
gone_before w (u ∷ ws) zero zero other at = absurd (other (ground arith))
gone_before w (u ∷ ws) zero (suc j) other at = at
gone_before w (u ∷ ws) (suc i) zero other at = at
gone_before w (u ∷ ws) (suc i) (suc j) other at = gone_before w ws i j other at

pub HasGone-set :
    (ws : List Worker) (i : ℕ) (w : Worker) → w ≢ gone → HasGone (set ws i w) → HasGone ws
HasGone-set ws i w other (j, at) = (j, gone_before w ws i j other at)

-- How much the workers have left to do: two turns for one that is busy, and one for one that
-- waits.
abbrev pub turns_of : Worker → ℕ
turns_of idle = 1
turns_of (busy _) = 2
turns_of gone = 0

abbrev pub turns_left : List Worker → ℕ
turns_left [] = 0
turns_left (w ∷ ws) = turns_of w + turns_left ws

pub turns_left-set :
    (ws : List Worker) (i : ℕ) (v w : Worker)
    → get_elem? ws i ≡ some v
    → turns_left (set ws i w) + turns_of v ≡ turns_left ws + turns_of w
unfolding get_elem? set
turns_left-set [] i v w at = absurd (ground arith)
turns_left-set (u ∷ ws) zero v w at =
    let same : u ≡ v = ground arith in omega (arith, ap turns_of same)
turns_left-set (u ∷ ws) (suc i) v w at = omega (arith, turns_left-set ws i v w at)

-- A worker that has something left to do.
pub find_worker :
    (ws : List Worker)
    → all_gone ws ≡ false
    → (i : ℕ) × ((get_elem? ws i ≡ some idle) ⊎ ((ev : Event) × (get_elem? ws i ≡ some (busy ev))))
unfolding all_gone get_elem?
find_worker [] some_ = absurd (ground arith)
find_worker (idle ∷ ws) some_ = (0, inl refl)
find_worker (busy ev ∷ ws) some_ = (0, inr (ev, refl))
find_worker (gone ∷ ws) some_ = let (i, found) = find_worker ws some_ in (suc i, found)

-- The workers at the start.
pub launch_lem :
    (n : ℕ) → (in_flight (launch n) ≡ []) × (¬ HasGone (launch n)) × (length (launch n) ≡ n)
unfolding launch get_elem?
launch_lem zero = (refl, λ h. cc (h.1), refl)
launch_lem (suc n) =
    let (none_, fresh, many) = launch_lem n in
    (none_, λ h. later (λ i at. fresh (i, at)) h.0 h.1, ap suc many)
  where
    later :
        ((i : ℕ) → get_elem? (launch n) i ≡ some gone → ⊥)
        → (i : ℕ) → get_elem? (idle ∷ launch n) i ≡ some gone
        → ⊥
    later fresh zero at = ground arith
    later fresh (suc i) at = fresh i at

pub length-set : (ws : List Worker) (i : ℕ) (w : Worker) → length (set ws i w) ≡ length ws
unfolding set
length-set [] i w = refl
length-set (u ∷ ws) zero w = refl
length-set (u ∷ ws) (suc i) w = ap suc (length-set ws i w)
