-- ===== src/Co/Listeners.antt =====
-- `await_p`: what it leaves with the parent, and how the parent stops it.
use p2p_live.Prelude.{
  ℕ, suc, ◌≡◌, refl, ap, ◌∙◌, Bool, true, false, Option, some, List, [], ◌∷◌, ◌++◌, inl, inr,
  Option-cases, Bool-cases, length, get_elem?, get_elem?-append_last, set-append_last,
}
use mathlib.Core.List.{append-nil}
use p2p_live.Co.{
  Parameter, new_parameter, stop_wait, add_stop_wait_fn, remove_stop_wait_fn, add_times, listening,
  turned_off, Call, Awaited, returned, suspended, Wake, event, parent_stops, Nested, among, Going,
  released, enlisted, nested_turn, nested_wait, await_p,
}

pub listening-append :
    (ls ms : List (ℕ × Bool)) → listening (ls ++ ms) ≡ listening ls ++ listening ms
listening-append [] ms = refl
listening-append ((f, true) ∷ ls) ms = ap (λ t. f ∷ t) (listening-append ls ms)
listening-append ((f, false) ∷ ls) ms = listening-append ls ms

listening-turned_off :
    (f : ℕ) (ls : List (ℕ × Bool))
    → listening (
        turned_off
          (get_elem? (ls ++ (f, true) ∷ []) (length ls))
          (length ls)
          (ls ++ (f, true) ∷ []))
      ≡ listening ls
listening-turned_off f ls =
    rw (get_elem?-append_last ls (f, true), set-append_last ls (f, true) (f, false))
      (listening-append ls ((f, false) ∷ []) ∙ append-nil (listening ls))

-- The listeners that a parent has after `await_p`, as the loop has returned or is suspended.
abbrev pub listeners_after : {S R : Type 0} → Awaited S R → List ℕ → (me : ℕ) → List ℕ
listeners_after (returned r s) ls me = ls
listeners_after (suspended p s) ls me = ls ++ me ∷ []

module _ {S R : Type 0} (call : Call S R) (me : ℕ) where
  abbrev Settled : List (ℕ × Bool) → Nested S R → Type 0
  Settled ls n = listening n.parent.stop_listener ≡ listeners_after n.progress (listening ls) me

  released_lem :
      (ls : List (ℕ × Bool)) (parent : Parameter)
      → parent.stop_listener ≡ ls ++ (me, true) ∷ []
      → listening (released (some (length ls)) parent).stop_listener ≡ listening ls
  unfolding remove_stop_wait_fn
  released_lem ls parent at =
      ap (λ l. listening (turned_off (get_elem? l (length ls)) (length ls) l)) at
      ∙ listening-turned_off me ls

  enlisted_once :
      (times n : ℕ) (idx : Option ℕ) (parent : Parameter)
      → times ≡ suc n
      → enlisted me times idx parent ≡ (parent, idx)
  enlisted_once times n idx parent h = rw h refl

  Settled-nested_turn :
      (wait : Going S R) (ls : List (ℕ × Bool)) (n : ℕ) (parent p : Parameter) (s : S)
      → parent.stop_listener ≡ ls ++ (me, true) ∷ []
      → p.times ≡ suc n
      → Settled ls (wait (some (length ls)) parent (add_times p) (call p s).0)
      → Settled ls (nested_turn call me wait (some (length ls)) parent p s)
  unfolding nested_turn
  Settled-nested_turn wait ls n parent p s at later next = elim (Option-cases (call p s).1) [
    | inl still ↦ rw (still, enlisted_once p.times n (some (length ls)) parent later) next
    | inr (r, done) ↦ rw done (released_lem ls parent at)
  ]

  Settled-nested_wait :
      (wakes : List (Wake S)) (ls : List (ℕ × Bool)) (n : ℕ) (parent p : Parameter) (s : S)
      → parent.stop_listener ≡ ls ++ (me, true) ∷ []
      → p.times ≡ suc n
      → Settled ls (nested_wait call me wakes (some (length ls)) parent p s)
  unfolding nested_wait stop_wait add_times
  Settled-nested_wait [] ls n parent p s at later =
      ap listening at ∙ listening-append ls ((me, true) ∷ [])
  Settled-nested_wait (event change ∷ wakes) ls n parent p s at later =
      let s' = change s in
      Settled-nested_turn (nested_wait call me wakes) ls n parent p s' at later
        (Settled-nested_wait wakes ls (suc n) parent (add_times p) (call p s').0 at (ap suc later))
  Settled-nested_wait (parent_stops ∷ wakes) ls n parent p s at later =
      let parent' = (stop_wait parent).0 in
      let p' = (stop_wait p).0 in
      elim (Bool-cases (among me (listening parent.stop_listener))) [
        | inl told ↦ rw told (
            Settled-nested_turn (nested_wait call me wakes) ls n parent' p' s at later (
              Settled-nested_wait wakes ls (suc n) parent' (add_times p') (call p' s).0 at
                (ap suc later)))
        | inr untold ↦ rw untold (Settled-nested_wait wakes ls n parent' p s at later)
      ]

  -- Once `await_p` has returned, the parent calls the listeners that it had before and no other, so
  -- none that refers to a parameter that is gone; while it is suspended it has one more, after them.
  pub listening-await_p :
      (wakes : List (Wake S)) (parent : Parameter) (s : S)
      → (let n = await_p parent call me wakes s in
          listening n.parent.stop_listener
          ≡ listeners_after n.progress (listening parent.stop_listener) me)
  unfolding await_p nested_turn new_parameter add_stop_wait_fn add_times
  listening-await_p wakes parent s =
      let ls = parent.stop_listener in
      let parent' = record parent { stop_listener = ls ++ (me, true) ∷ [] } in
      let next =
        Settled-nested_wait wakes ls 0 parent' (add_times new_parameter) (call new_parameter s).0
          refl refl in
      elim (Option-cases (call new_parameter s).1) [
        | inl still ↦ rw still next
        | inr (r, done) ↦ rw done refl
      ]
