-- ===== src/Event/Requests.antt =====
-- What the requests of the coroutines that `dispatch` resumes do to its queue and cancellations.
use p2p_live.Prelude.{
  ℕ, ◌+◌, ◌≡◌, refl, sym, ap, ◌∙◌, arith, ◌==◌, ◌||◌, not, Bool, if◌then◌else◌, false, Option, List,
  [], ◌∷◌, ◌++◌,
}
use mathlib.Core.List.{append_assoc, append-nil}
use p2p_live.Event.{Dispatcher, contains, add, cancel, Request, adds, cancels, request, requests}

-- What the coroutines in a queue weigh, and those that some requests add.
abbrev pub total : (ℕ × Option ℕ → ℕ) → List (ℕ × Option ℕ) → ℕ
total w [] = 0
total w (e ∷ q) = w e + total w q

abbrev pub added_weight : (ℕ × Option ℕ → ℕ) → List Request → ℕ
added_weight w [] = 0
added_weight w (adds c f ∷ rs) = w (c, f) + added_weight w rs
added_weight w (cancels c ∷ rs) = added_weight w rs

-- The coroutines that some requests add, and whether they cancel `x`.
abbrev pub started : List Request → List (ℕ × Option ℕ)
started [] = []
started (adds c f ∷ rs) = (c, f) ∷ started rs
started (cancels c ∷ rs) = started rs

abbrev pub cancelled : (x : ℕ) → List Request → Bool
cancelled x [] = false
cancelled x (adds c f ∷ rs) = cancelled x rs
cancelled x (cancels c ∷ rs) = c == x || cancelled x rs

-- The entries that a test picks.
abbrev pub picked : (ℕ × Option ℕ → Bool) → List (ℕ × Option ℕ) → List (ℕ × Option ℕ)
picked p [] = []
picked p (e ∷ q) = if p e then e ∷ picked p q else picked p q

-- The context is cancelled neither before nor by the requests.
abbrev pub undisturbed : List ℕ → List Request → ℕ × Option ℕ → Bool
undisturbed cs rs e = not (contains e.0 cs || cancelled e.0 rs)

pub started-append : (rs ts : List Request) → started (rs ++ ts) ≡ started rs ++ started ts
started-append [] ts = refl
started-append (adds c f ∷ rs) ts = ap (λ z. (c, f) ∷ z) (started-append rs ts)
started-append (cancels c ∷ rs) ts = started-append rs ts

pub cancelled-append :
    (x : ℕ) (rs ts : List Request)
    → cancelled x (rs ++ ts) ≡ false
    → (cancelled x rs ≡ false) × (cancelled x ts ≡ false)
cancelled-append x [] ts h = (refl, h)
cancelled-append x (adds c f ∷ rs) ts h = cancelled-append x rs ts h
cancelled-append x (cancels c ∷ rs) ts h = ground (arith, h, cancelled-append x rs ts)

pub queue-requests :
    (rs : List Request) (s : Dispatcher)
    → (requests rs s).co_wait_for_resume ≡ s.co_wait_for_resume ++ started rs
unfolding requests request add cancel
queue-requests [] s = sym (append-nil s.co_wait_for_resume)
queue-requests (adds c f ∷ rs) s =
    queue-requests rs (add c f s) ∙ append_assoc s.co_wait_for_resume ((c, f) ∷ []) (started rs)
queue-requests (cancels c ∷ rs) s = queue-requests rs (cancel c s)

pub still_free :
    (x : ℕ) (rs : List Request) (s : Dispatcher)
    → cancelled x rs ≡ false
    → contains x s.cancel_contexts ≡ false
    → contains x (requests rs s).cancel_contexts ≡ false
unfolding requests request add cancel
still_free x [] s h k = k
still_free x (adds c f ∷ rs) s h k = still_free x rs (add c f s) h k
still_free x (cancels c ∷ rs) s h k =
    still_free x rs (cancel c s) (ground (arith, h)) (ground (arith, h, k))

-- What the coroutines of a log ask for.
abbrev pub requested : (ℕ × Option ℕ → List Request) → List (ℕ × Option ℕ) → List Request
requested acts [] = []
requested acts (e ∷ log) = acts e ++ requested acts log
