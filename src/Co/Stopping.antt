-- ===== src/Co/Stopping.antt =====
-- `await_p` against `await`: the same result while the parent does not stop, an end when it does.
use p2p_live.Prelude.{
  ℕ, zero, suc, arith, ==_iff, ◌∙◌, ap, sym, subst, ◌≡◌, refl, true, Option, none, some, List, [],
  ◌∷◌, ◌++◌, map,
}
use p2p_live.Co.{
  Parameter, new_parameter, stop_wait, add_times, Call, Awaited, suspended, resumed, await_loop,
  await, Wake, event, parent_stops, Nested, enlisted, nested, nested_turn, nested_wait, await_p,
  among, listening, Going, add_stop_wait_fn,
}
use p2p_live.Co.Listeners.{listening-append}
use p2p_live.Co.Waiting.{StopsWhenTold, Returns}

module _ {S R : Type 0} (call : Call S R) (me : ℕ) where
  progress-nested :
      (r : Option R) (idx : Option ℕ) (parent p : Parameter) (s : S) (later : Nested S R)
      (a : Awaited S R)
      → later.progress ≡ a
      → (nested r idx parent p s later).progress ≡ resumed r p s a
  progress-nested none idx parent p s later a h = h
  progress-nested (some r) idx parent p s later a h = refl

  progress-nested_turn :
      (changes : List (S → S)) (idx : Option ℕ) (parent p : Parameter) (s : S)
      → (nested_turn call me (nested_wait call me (map event changes)) idx parent p s).progress
        ≡ await_loop call changes p s
  unfolding nested_turn nested_wait await_loop
  progress-nested_turn [] idx parent p s =
      let (parent', idx') = enlisted me p.times idx parent in
      progress-nested (call p s).1 idx parent p (call p s).0
        (nested_wait call me [] idx' parent' (add_times p) (call p s).0)
        (suspended (add_times p) (call p s).0) refl
  progress-nested_turn (change ∷ changes) idx parent p s =
      let (parent', idx') = enlisted me p.times idx parent in
      let s' = change (call p s).0 in
      progress-nested (call p s).1 idx parent p (call p s).0
        (nested_turn call me (nested_wait call me (map event changes)) idx' parent' (add_times p)
          s')
        (await_loop call changes (add_times p) s')
        (progress-nested_turn changes idx' parent' (add_times p) s')

  Returns-nested :
      (r : Option R) (idx : Option ℕ) (parent p : Parameter) (s : S) (later : Nested S R)
      → Returns later.progress
      → Returns (nested r idx parent p s later).progress
  Returns-nested none idx parent p s later h = h
  Returns-nested (some r) idx parent p s later h = (r, s, refl)

  told-Returns :
      (wait : Going S R) (idx : Option ℕ) (parent p : Parameter) (s : S)
      → StopsWhenTold call
      → p.stop ≡ true
      → Returns (nested_turn call me wait idx parent p s).progress
  unfolding nested_turn
  told-Returns wait idx parent p s h e = let (r, at) = h p s e in (r, (call p s).0, rw at refl)

  -- The parent calls the listener, or there has been no suspension yet.
  abbrev Listens : (times : ℕ) → Parameter → Type 0
  Listens zero parent = Unit {0}
  Listens (suc n) parent = among me (listening parent.stop_listener) ≡ true

  among_last : (fs : List ℕ) → among me (fs ++ me ∷ []) ≡ true
  among_last [] = ground (arith, ==_iff me me)
  among_last (f ∷ fs) = ground (arith, among_last fs)

  among-enlisted :
      (times : ℕ) (idx : Option ℕ) (parent : Parameter)
      → Listens times parent
      → among me (listening (enlisted me times idx parent).0.stop_listener) ≡ true
  unfolding add_stop_wait_fn
  among-enlisted zero idx parent l =
      ap (among me) (listening-append parent.stop_listener ((me, true) ∷ []))
      ∙ among_last (listening parent.stop_listener)
  among-enlisted (suc n) idx parent l = l

  nested_turn-Returns :
      (changes : List (S → S)) (wakes : List (Wake S)) (idx : Option ℕ) (parent p : Parameter)
      (s : S)
      → StopsWhenTold call
      → Listens p.times parent
      → Returns
          (nested_turn call me
            (nested_wait call me (map event changes ++ parent_stops ∷ wakes))
            idx
            parent
            p
            s).progress
  unfolding nested_turn nested_wait stop_wait add_times
  nested_turn-Returns [] wakes idx parent p s h l =
      let (parent', idx') = enlisted me p.times idx parent in
      let p' = (stop_wait (add_times p)).0 in
      let heard : among me (listening parent'.stop_listener) ≡ true =
        among-enlisted p.times idx parent l in
      let told =
        nested_turn call me (nested_wait call me wakes) idx' (stop_wait parent').0 p'
          (call p s).0 in
      let later =
        nested_wait call me (parent_stops ∷ wakes) idx' parent' (add_times p) (call p s).0 in
      let called : later ≡ told = rw heard refl in
      Returns-nested (call p s).1 idx parent p (call p s).0 later (
        subst (λ n. Returns n.progress) (sym called)
          (told-Returns (nested_wait call me wakes) idx' (stop_wait parent').0 p' (call p s).0 h
            refl))
  nested_turn-Returns (change ∷ changes) wakes idx parent p s h l =
      let (parent', idx') = enlisted me p.times idx parent in
      let s' = change (call p s).0 in
      let later =
        nested_turn call me (nested_wait call me (map event changes ++ parent_stops ∷ wakes)) idx'
          parent' (add_times p) s' in
      Returns-nested (call p s).1 idx parent p (call p s).0 later (
        nested_turn-Returns changes wakes idx' parent' (add_times p) s' h
          (among-enlisted p.times idx parent l))

  -- While the parent does not stop, `await_p` gets as far as `await` with the same call and the same
  -- resumptions; and where the call gives a result when it is told to stop, it returns at the latest
  -- when the parent stops.
  pub await_p-await :
      (changes : List (S → S)) (wakes : List (Wake S)) (parent : Parameter) (s : S)
      → StopsWhenTold call
      → ((await_p parent call me (map event changes) s).progress ≡ await call changes s)
        × Returns (await_p parent call me (map event changes ++ parent_stops ∷ wakes) s).progress
  unfolding await_p await new_parameter
  await_p-await changes wakes parent s h = (
    progress-nested_turn changes none parent new_parameter s,
    nested_turn-Returns changes wakes none parent new_parameter s h tt,
  )
