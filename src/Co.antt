-- ===== src/Co.antt =====
-- include/net/co.hpp, lib/net/co.cc and lib/net/execute_context.cc: the parameter that a suspended
-- call keeps, the loops that call again until there is a result, and the chain of coroutines. A call
-- is a function of its parameter and of the state that it works on; what else happens while the
-- coroutine is suspended is a list of changes of that state, one for each time it is resumed.
pub mod Waiting
pub mod Stopping
pub mod Listeners
pub mod Chain
pub mod Sleeping
pub mod Tests
use p2p_live.Prelude.{
  ℕ, zero, suc, ◌+◌, Bool, true, false, Option, none, some, List, [], ◌∷◌, ◌++◌, if◌then◌else◌, leb,
  ◌==◌, ◌||◌, length, get_elem?, set,
}

-- `paramter_t`, without `user_ptr`. A listener is a number, with the flag that says whether it is
-- still to be called.
pub record Parameter : Type 0 where
  pub times : ℕ
  pub stop : Bool
  pub stop_listener : List (ℕ × Bool)

-- `paramter_t()`
unfoldable pub new_parameter : Parameter
new_parameter = record { times = 0; stop = false; stop_listener = [] }

-- The listeners that `stop_wait` calls.
abbrev pub listening : List (ℕ × Bool) → List ℕ
listening [] = []
listening ((f, on) ∷ ls) = if on then f ∷ listening ls else listening ls

-- `stop_wait`, with the listeners that it calls, in order.
unfoldable pub stop_wait : Parameter → Parameter × List ℕ
stop_wait p = (record p { stop = true }, listening p.stop_listener)

-- `add_stop_wait_fn`
unfoldable pub add_stop_wait_fn : ℕ → Parameter → Parameter × ℕ
add_stop_wait_fn f p =
    (record p { stop_listener = p.stop_listener ++ (f, true) ∷ [] }, length p.stop_listener)

abbrev pub turned_off : Option (ℕ × Bool) → ℕ → List (ℕ × Bool) → List (ℕ × Bool)
turned_off none i ls = ls
turned_off (some (f, _)) i ls = set ls i (f, false)

-- `remove_stop_wait_fn`. (An index out of range is undefined; here it changes nothing.)
unfoldable pub remove_stop_wait_fn : ℕ → Parameter → Parameter
remove_stop_wait_fn i p = record p {
  stop_listener = turned_off (get_elem? p.stop_listener i) i p.stop_listener;
}

-- `add_times`
unfoldable pub add_times : Parameter → Parameter
add_times p = record p { times = suc p.times }

-- What a call makes of its state, and `async_result_t`, empty where the call has not finished.
abbrev pub Call : Type 0 → Type 0 → Type 0
Call S R = Parameter → S → S × Option R

-- A loop that has returned, or that has no resumption left and is suspended.
pub data Awaited (S R : Type 0) : Type 0 where
  returned : R → S → Awaited S R
  suspended : Parameter → S → Awaited S R

-- A time asleep and what was done meanwhile.
pub record Nap (S : Type 0) : Type 0 where
  pub elapsed : ℕ
  pub change : S → S

-- `execute_context_t::sleep`: 0 for the whole time, or how much of it has passed.
unfoldable pub sleep : (span elapsed : ℕ) → ℕ
sleep span elapsed = if leb span elapsed then 0 else elapsed

abbrev pub stopped_at : (span : ℕ) → Parameter → Parameter
stopped_at zero p = (stop_wait p).0
stopped_at (suc n) p = p

-- What happens during a suspension of `await_p`: its event, or a `stop_wait` of the parent.
pub data Wake (S : Type 0) : Type 0 where
  event : (S → S) → Wake S
  parent_stops : Wake S

-- The parent's parameter, the own one, and how far the loop has got.
pub record Nested (S R : Type 0) : Type 0 where
  pub parent : Parameter
  pub own : Parameter
  pub progress : Awaited S R

-- How `await_p` goes on: with `idx`, `none` for -1, the two parameters and the state.
abbrev pub Going : Type 0 → Type 0 → Type 0
Going S R = Option ℕ → (parent own : Parameter) → S → Nested S R

abbrev pub among : ℕ → List ℕ → Bool
among me [] = false
among me (f ∷ fs) = me == f || among me fs

abbrev pub released : Option ℕ → Parameter → Parameter
released none parent = parent
released (some idx) parent = remove_stop_wait_fn idx parent

-- The first suspension registers the listener, numbered `me`, with the parent.
abbrev pub enlisted : (me : ℕ) → (times : ℕ) → Option ℕ → Parameter → Parameter × Option ℕ
enlisted me zero idx parent = let (parent', i) = add_stop_wait_fn me parent in (parent', some i)
enlisted me (suc n) idx parent = (parent, idx)

module _ {S R : Type 0} where
  abbrev pub resumed : Option R → Parameter → S → Awaited S R → Awaited S R
  resumed none p s later = later
  resumed (some r) p s later = returned r s

  -- The loop of `await`.
  unfoldable pub await_loop : Call S R → List (S → S) → Parameter → S → Awaited S R
  unfolding add_times
  await_loop call [] p s = let (s', r) = call p s in resumed r p s' (suspended (add_times p) s')
  await_loop call (change ∷ changes) p s =
      let (s', r) = call p s in
      let later = await_loop call changes (add_times p) (change s') in resumed r p s' later

  -- `await`
  unfoldable pub await : Call S R → List (S → S) → S → Awaited S R
  unfolding await_loop new_parameter
  await call changes s = await_loop call changes new_parameter s

  -- The loop of `await_timeout`: `span` is what `sleep` returned.
  unfoldable pub timeout_loop : Call S R → List (Nap S) → ℕ → Parameter → S → Awaited S R
  unfolding add_times sleep stop_wait
  timeout_loop call [] span p s = let (s', r) = call p s in resumed r p s' (suspended p s')
  timeout_loop call (nap ∷ naps) span p s =
      let (s', r) = call p s in
      let span' = sleep span nap.elapsed in
      let later = timeout_loop call naps span' (add_times (stopped_at span' p)) (nap.change s') in
      resumed r p s' later

  -- `await_timeout`
  unfoldable pub await_timeout : (span : ℕ) → Call S R → List (Nap S) → S → Awaited S R
  unfolding timeout_loop new_parameter
  await_timeout span call naps s = timeout_loop call naps span new_parameter s

  abbrev pub nested : Option R → Option ℕ → Parameter → Parameter → S → Nested S R → Nested S R
  nested none idx parent p s later = later
  nested (some r) idx parent p s later = record {
    parent = released idx parent;
    own = p;
    progress = returned r s;
  }

  -- A turn of the loop of `await_p`: the call, and the suspension where it has not finished.
  unfoldable pub nested_turn : Call S R → (me : ℕ) → (wait : Going S R) → Going S R
  unfolding add_times add_stop_wait_fn remove_stop_wait_fn
  nested_turn call me wait idx parent p s =
      let (s', r) = call p s in
      let (parent', idx') = enlisted me p.times idx parent in
      nested r idx parent p s' (wait idx' parent' (add_times p) s')

  -- The suspension: an event resumes the coroutine; `stop_wait` of the parent resumes it, and stops its
  -- own parameter, if the listener is among those that it calls.
  unfoldable pub nested_wait : Call S R → (me : ℕ) → List (Wake S) → Going S R
  unfolding nested_turn stop_wait
  nested_wait call me [] idx parent p s = record {
    parent = parent;
    own = p;
    progress = suspended p s;
  }
  nested_wait call me (event change ∷ wakes) idx parent p s =
      nested_turn call me (nested_wait call me wakes) idx parent p (change s)
  nested_wait call me (parent_stops ∷ wakes) idx parent p s =
      let (parent', called) = stop_wait parent in
      let told = nested_turn call me (nested_wait call me wakes) idx parent' (stop_wait p).0 s in
      let untold = nested_wait call me wakes idx parent' p s in
      if among me called then told else untold

  -- `await_p`
  unfoldable pub await_p : Parameter → Call S R → (me : ℕ) → List (Wake S) → S → Nested S R
  unfolding nested_turn nested_wait new_parameter
  await_p parent call me wakes s =
      nested_turn call me (nested_wait call me wakes) none parent new_parameter s
