-- ===== src/Event/Loops.antt =====
-- The choice of a loop for a new socket or coroutine.
use p2p_live.Prelude.{
  ℕ, zero, suc, ◌≤◌, ◌<◌, ◌≡◌, refl, sym, ap, ◌∙◌, arith, false, some, List, [], ◌∷◌, ◌++◌,
  if◌then◌else◌, ltb, ltb→lt, Bool-cases, inl, inr, get_elem?, length, get_elem?-append_left,
  get_elem?_lt, some_eq, ◌⊎◌, subst, get_elem?-append_last, length-append,
}
use mathlib.Core.List.{append_assoc, append-nil}
use p2p_live.Event.{select_from, select_loop}

-- The best of the loads seen so far: the first one with the least load.
pub record IsBest (facs : List ℕ) (best min_fac : ℕ) : Type 0 where
  pub there : get_elem? facs best ≡ some min_fac
  pub least : (j fac : ℕ) → get_elem? facs j ≡ some fac → min_fac ≤ fac
  pub first : (j fac : ℕ) → get_elem? facs j ≡ some fac → j < best → min_fac < fac

one_more :
    (facs : List ℕ) (fac j f : ℕ)
    → get_elem? (facs ++ fac ∷ []) j ≡ some f
    → (get_elem? facs j ≡ some f) ⊎ ((j ≡ length facs) × (f ≡ fac))
one_more [] fac zero f e = inr (refl, sym (some_eq e))
one_more [] fac (suc j) f e = absurd cc
one_more (x ∷ xs) fac zero f e = inl e
one_more (x ∷ xs) fac (suc j) f e = elim (one_more xs fac j f e) [
  | inl old ↦ inl old
  | inr (at, same) ↦ inr (ap suc at, same)
]

keeps-IsBest :
    (facs : List ℕ) (fac best min_fac : ℕ)
    → IsBest facs best min_fac
    → min_fac ≤ fac
    → IsBest (facs ++ fac ∷ []) best min_fac
keeps-IsBest facs fac best min_fac h le =
    let t = h.there in
    let range = get_elem?_lt facs best min_fac t in
    record {
      there = get_elem?-append_left facs (fac ∷ []) best range ∙ t;
      least = λ j f e. elim (one_more facs fac j f e) [
        | inl old ↦ h.least j f old
        | inr (at, same) ↦ omega arith
      ];
      first = λ j f e lt. elim (one_more facs fac j f e) [
        | inl old ↦ h.first j f old lt
        | inr (at, same) ↦ absurd (omega arith)
      ];
    }

takes-IsBest :
    (facs : List ℕ) (fac best min_fac : ℕ)
    → IsBest facs best min_fac
    → fac < min_fac
    → IsBest (facs ++ fac ∷ []) (length facs) fac
takes-IsBest facs fac best min_fac h lt = record {
  there = get_elem?-append_last facs fac;
  least = λ j f e. elim (one_more facs fac j f e) [
    | inl old ↦ let k = h.least j f old in omega arith
    | inr (at, same) ↦ omega arith
  ];
  first = λ j f e before. elim (one_more facs fac j f e) [
    | inl old ↦ let k = h.least j f old in omega arith
    | inr (at, same) ↦ absurd (omega arith)
  ];
}

select_from-IsBest :
    (rest seen : List ℕ) (best min_fac : ℕ)
    → IsBest seen best min_fac
    → (m : ℕ) × IsBest (seen ++ rest) (select_from rest (length seen) best min_fac) m
unfolding select_from
select_from-IsBest [] seen best min_fac h =
    (min_fac, subst (λ z. IsBest z best min_fac) (sym (append-nil seen)) h)
select_from-IsBest (fac ∷ rest) seen best min_fac h =
    let long : length (seen ++ fac ∷ []) ≡ suc (length seen) =
      omega (arith, length-append seen (fac ∷ [])) in
    let less = ltb fac min_fac in
    let b = if less then length seen else best in
    let m = if less then fac else min_fac in
    let step : IsBest (seen ++ fac ∷ []) b m = elim (Bool-cases (ltb fac min_fac)) [
      | inl below ↦ rw below (takes-IsBest seen fac best min_fac h (ltb→lt fac min_fac below))
      | inr above ↦ rw above (keeps-IsBest seen fac best min_fac h (ground arith))
    ] in
    let (k, found) = select_from-IsBest rest (seen ++ fac ∷ []) b m step in
    (
      k,
      subst (λ z. IsBest z (select_from rest (suc (length seen)) b m) k)
          (append_assoc seen (fac ∷ []) rest)
          (subst (λ n. IsBest ((seen ++ fac ∷ []) ++ rest) (select_from rest n b m) k) long found),
    )

-- `select_loop` gives a loop of the context, one with the least load, and of these the first.
pub select_loop-IsBest :
    (fac : ℕ) (facs : List ℕ) → (m : ℕ) × IsBest (fac ∷ facs) (select_loop fac facs) m
unfolding select_loop select_from
select_loop-IsBest fac facs =
    let one : IsBest (fac ∷ []) 0 fac = record {
      there = refl;
      least = λ j f e. ground arith;
      first = λ j f e lt. absurd (omega arith);
    } in
    let (m, best) = select_from-IsBest facs (fac ∷ []) 0 fac one in
    let same : ltb fac fac ≡ false = ground arith in (m, rw same best)
