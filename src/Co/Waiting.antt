-- ===== src/Co/Waiting.antt =====
-- `await_timeout`: when it ends, and how long it waits.
use p2p_live.Prelude.{
  ℕ, zero, suc, ◌+◌, ◌≤◌, ◌<◌, ◌≡◌, ◌⊎◌, refl, ◌∙◌, arith, true, false, none, some, List, [], ◌∷◌,
  inl, inr, Option-cases, length,
}
use p2p_live.Co.{
  Parameter, new_parameter, stop_wait, add_times, Call, Awaited, returned, Nap, sleep, timeout_loop,
  await_timeout,
}

-- What the calls of the library do when they are told to stop: they give a result.
abbrev pub StopsWhenTold : {S R : Type 0} → Call S R → Type 0
StopsWhenTold {S} {R} call =
    (p : Parameter) (s : S) → p.stop ≡ true → (r : R) × ((call p s).1 ≡ some r)

-- A call that gives no result unless it is told to stop.
abbrev pub WaitsOn : {S R : Type 0} → Call S R → Type 0
WaitsOn {S} {R} call = (p : Parameter) (s : S) → p.stop ≡ false → (call p s).1 ≡ none

abbrev pub Returns : {S R : Type 0} → Awaited S R → Type 0
Returns {S} {R} a = (r : R) × (s : S) × (a ≡ returned r s)

sleep_lt : (span elapsed : ℕ) → (sleep span elapsed ≡ 0) ⊎ (sleep span elapsed < span)
unfolding sleep
sleep_lt span elapsed = ground arith

zero_or_suc : (n : ℕ) → (n ≡ 0) ⊎ ((m : ℕ) × (n ≡ suc m))
zero_or_suc zero = inl refl
zero_or_suc (suc m) = inr (m, refl)

module _ {S R : Type 0} (call : Call S R) where
  stopped-Returns :
      StopsWhenTold call
      → (naps : List (Nap S)) (span : ℕ) (p : Parameter) (s : S) → p.stop ≡ true
      → Returns (timeout_loop call naps span p s)
  unfolding timeout_loop
  stopped-Returns h [] span p s e = let (r, at) = h p s e in (r, (call p s).0, rw at refl)
  stopped-Returns h (nap ∷ naps) span p s e = let (r, at) = h p s e in (r, (call p s).0, rw at refl)

  timeout_loop-Returns :
      StopsWhenTold call
      → (naps : List (Nap S)) (span : ℕ) (p : Parameter) (s : S) → 0 < length naps
      → span ≤ length naps
      → Returns (timeout_loop call naps span p s)
  unfolding timeout_loop stop_wait add_times
  timeout_loop-Returns h [] span p s k l = absurd (omega arith)
  timeout_loop-Returns h (nap ∷ naps) span p s k l = elim (Option-cases (call p s).1) [
    | inr (r, at) ↦ (r, (call p s).0, rw at refl)
    | inl still ↦
        let s' = nap.change (call p s).0 in
        elim (zero_or_suc (sleep span nap.elapsed)) [
          | inl over ↦
              rw (still, over) (stopped-Returns h naps 0 (add_times (stop_wait p).0) s' refl)
          | inr (m, left) ↦
              let enough : suc m ≤ length naps = ground (arith, left, sleep_lt span nap.elapsed) in
              rw (still, left)
                (timeout_loop-Returns h naps (suc m) (add_times p) s' (ground arith) enough)
        ]
  ]

  -- A call that gives a result when it is told to stop: `await_timeout` of any span returns, when the
  -- coroutine is resumed once, and at least as many times as there are microseconds in the span.
  pub await_timeout-Returns :
      (span : ℕ) (naps : List (Nap S)) (s : S)
      → StopsWhenTold call
      → 0 < length naps
      → span ≤ length naps
      → Returns (await_timeout span call naps s)
  unfolding await_timeout
  await_timeout-Returns span naps s h k l = timeout_loop-Returns h naps span new_parameter s k l

  step_over :
      StopsWhenTold call
      → WaitsOn call
      → (nap : Nap S) (naps : List (Nap S)) (span : ℕ) (p : Parameter) (s : S) → p.stop ≡ false
      → sleep span nap.elapsed ≡ 0
      → Returns (timeout_loop call (nap ∷ naps) span p s)
  unfolding timeout_loop stop_wait add_times
  step_over h w nap naps span p s live over =
      rw (w p s live, over)
        (stopped-Returns h naps 0 (add_times (stop_wait p).0) (nap.change (call p s).0) refl)

  step_on :
      WaitsOn call
      → (nap : Nap S) (naps : List (Nap S)) (span m : ℕ) (p : Parameter) (s : S) → p.stop ≡ false
      → sleep span nap.elapsed ≡ suc m
      → timeout_loop call (nap ∷ naps) span p s
        ≡ timeout_loop call naps (suc m) (add_times p) (nap.change (call p s).0)
  unfolding timeout_loop
  step_on w nap naps span m p s live left = rw (w p s live, left) refl

  -- A call that gives a result when it is told to stop, and none before: a first resumption before the
  -- span is over makes the time slept so far the new span, so that `await_timeout` returns after as long
  -- again, however long the span was.
  pub await_timeout-early :
      (span : ℕ) (early late : Nap S) (s : S)
      → StopsWhenTold call
      → WaitsOn call
      → early.elapsed + late.elapsed < span
      → early.elapsed ≤ late.elapsed
      → Returns (await_timeout span call (early ∷ late ∷ []) s)
  unfolding await_timeout sleep new_parameter add_times
  await_timeout-early span early late s h w k l = elim (zero_or_suc early.elapsed) [
    | inl at_once ↦
        step_over h w early (late ∷ []) span new_parameter s refl (ground (arith, at_once))
    | inr (m, slept) ↦
        let s1 = early.change (call new_parameter s).0 in
        let p1 = add_times new_parameter in
        let on = step_on w early (late ∷ []) span m new_parameter s refl (ground (arith, slept)) in
        let (r, s2, end) = step_over h w late [] (suc m) p1 s1 refl (ground (arith, slept)) in
        (r, s2, on ∙ end)
  ]
