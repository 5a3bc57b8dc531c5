-- ===== src/Co/Chain.antt =====
-- `coroutine_t`: `resume`, `yield` and the end of `co_wrapper`, and what of them moves control, which
-- is what is left once boost has switched the stacks.
use p2p_live.Prelude.{
  ℕ, ◌≡◌, refl, sym, ap, subst, some_eq, ◌∙◌, arith, Bool, true, false, ◌||◌, Option, none, some,
  List, [], ◌∷◌, if◌then◌else◌, ◌==◌, ==_iff, inl, inr, Bool-cases,
}

-- `co_cur`, and the fields `prev` and `is_stop` of each coroutine, by its number.
pub record Coroutines : Type 0 where
  pub co_cur : Option ℕ
  pub prev : ℕ → Option ℕ
  pub is_stop : ℕ → Bool

-- `resume`
unfoldable pub resume : ℕ → Coroutines → Coroutines
resume c s =
    if s.is_stop c
    then s
    else record s { co_cur = some c; prev = λ d. if c == d then s.co_cur else s.prev d }

abbrev pub back_from : Option ℕ → Coroutines → Option Coroutines
back_from none s = none
back_from (some c) s = some (record s { co_cur = s.prev c })

-- `yield` up to the switch; `none` is the exception outside coroutines.
unfoldable pub yield : Coroutines → Option Coroutines
yield s = back_from s.co_cur s

abbrev pub ended : Option ℕ → Coroutines → Coroutines
ended none s = s
ended (some c) s = record s { is_stop = λ d. if c == d then true else s.is_stop d }

-- The end of `co_wrapper` in the current coroutine: control goes back to whoever resumed it.
unfoldable pub end_wrapper : Coroutines → Coroutines
end_wrapper s = ended s.co_cur s

-- `in_main_coroutine`
unfoldable pub in_main_coroutine : Coroutines → Bool
in_main_coroutine s = elim s.co_cur [ none ↦ true | some c ↦ false ]

-- The coroutines that have been resumed and have not yielded since, the last one first, as `prev`
-- links them.
pub data Chain (prev : ℕ → Option ℕ) : Option ℕ → List ℕ → Type 0 where
  main : Chain prev none []
  inside : (c : ℕ) {ds : List ℕ} → Chain prev (prev c) ds → Chain prev (some c) (c ∷ ds)

abbrev pub runs : ℕ → List ℕ → Bool
runs c [] = false
runs c (d ∷ ds) = c == d || runs c ds

abbrev pub IsChain : Coroutines → List ℕ → Type 0
IsChain s cs = Chain s.prev s.co_cur cs

-- The steps of the program. A coroutine whose function ends stays in the list, since only `yield`
-- moves `co_cur` back; one that is in the list is not resumed again.
pub data Steps : Coroutines → List ℕ → Coroutines → List ℕ → Type 0 where
  done : {s : Coroutines} {cs : List ℕ} → Steps s cs s cs
  resumes :
      {s t : Coroutines} {cs ds : List ℕ} (c : ℕ)
      → runs c cs ≡ false
      → Steps (resume c s) (if s.is_stop c then cs else c ∷ cs) t ds
      → Steps s cs t ds
  yields :
      {s s' t : Coroutines} {cs ds : List ℕ} (c : ℕ)
      → yield s ≡ some s'
      → Steps s' cs t ds
      → Steps s (c ∷ cs) t ds
  ends : {s t : Coroutines} {cs ds : List ℕ} → Steps (end_wrapper s) cs t ds → Steps s cs t ds

update-Chain :
    (c : ℕ) (o : Option ℕ) (prev : ℕ → Option ℕ) {at : Option ℕ} {cs : List ℕ}
    → runs c cs ≡ false
    → Chain prev at cs
    → Chain (λ d. if c == d then o else prev d) at cs
update-Chain c o prev h main = main
update-Chain c o prev h (inside d {ds} rest) =
    let other : (c == d) ≡ false = ground (arith, h) in
    let same : (if c == d then o else prev d) ≡ prev d = rw other refl in
    inside d (
      subst (λ x. Chain (λ y. if c == y then o else prev y) x ds) (sym same)
        (update-Chain c o prev (ground (arith, h)) rest))

resume-IsChain :
    (c : ℕ) (s : Coroutines) (cs : List ℕ)
    → runs c cs ≡ false
    → IsChain s cs
    → IsChain (resume c s) (if s.is_stop c then cs else c ∷ cs)
unfolding resume
resume-IsChain c s cs h chain = elim (Bool-cases (s.is_stop c)) [
  | inl over ↦ rw over chain
  | inr live ↦
      let prev' : ℕ → Option ℕ = λ d. if c == d then s.co_cur else s.prev d in
      let here : prev' c ≡ s.co_cur = ground (arith, ==_iff c c) in
      rw live (
        inside c
          (subst (λ x. Chain prev' x cs) (sym here) (update-Chain c s.co_cur s.prev h chain)))
]

cons_eq : {c d : ℕ} {cs ds : List ℕ} → d ∷ ds ≡ c ∷ cs → d ≡ c
cons_eq e = cc

rest_eq : {c d : ℕ} {cs ds : List ℕ} → d ∷ ds ≡ c ∷ cs → ds ≡ cs
rest_eq e = cc

front_lem :
    (prev : ℕ → Option ℕ) {at : Option ℕ} {ds : List ℕ} (c : ℕ) (cs : List ℕ)
    → Chain prev at ds
    → ds ≡ c ∷ cs
    → (at ≡ some c) × Chain prev (prev c) cs
front_lem prev c cs main e = absurd cc
front_lem prev c cs (inside d {ds} rest) e =
    let one : d ≡ c = cons_eq e in
    let others : ds ≡ cs = rest_eq e in
    (
      ap some one,
      subst (λ x. Chain prev (prev x) cs) one (subst (λ l. Chain prev (prev d) l) others rest),
    )

yield-IsChain :
    (c : ℕ) (s s' : Coroutines) (cs : List ℕ)
    → yield s ≡ some s'
    → IsChain s (c ∷ cs)
    → IsChain s' cs
unfolding yield
yield-IsChain c s s' cs h chain =
    let (here, rest) = front_lem s.prev c cs chain refl in
    let same : record s { co_cur = s.prev c } ≡ s' =
      some_eq (sym (ap (λ o. back_from o s) here) ∙ h) in
    subst (λ x. IsChain x cs) same rest

abbrev pub is_empty : List ℕ → Bool
is_empty [] = true
is_empty (c ∷ cs) = false

main_lem : (s : Coroutines) (cs : List ℕ) → IsChain s cs → in_main_coroutine s ≡ is_empty cs
unfolding in_main_coroutine
main_lem s [] chain = at_main s.co_cur chain
  where
    at_main : (o : Option ℕ) → Chain s.prev o [] → (elim o [ none ↦ true | some c ↦ false ]) ≡ true
    at_main none main = refl
    at_main (some _) x = elim x [ ]
main_lem s (c ∷ cs) chain = let here = (front_lem s.prev c cs chain refl).0 in rw here refl

ended-Chain :
    (o : Option ℕ) (s : Coroutines) (cs : List ℕ)
    → IsChain s cs
    → Chain (ended o s).prev (ended o s).co_cur cs
ended-Chain none s cs chain = chain
ended-Chain (some c) s cs chain = chain

end_wrapper-IsChain : (s : Coroutines) (cs : List ℕ) → IsChain s cs → IsChain (end_wrapper s) cs
unfolding end_wrapper
end_wrapper-IsChain s cs chain = ended-Chain s.co_cur s cs chain

-- Where `co_cur` and `prev` list the coroutines that have been resumed and have not yielded since, the
-- last one first, they do so after any steps in which coroutines resume others that are not in the
-- list, yield, or come to their end: a resumption pushes, a yield pops, and one whose function ends
-- stays in the list. `in_main_coroutine` then says whether the list is empty.
pub Steps-IsChain :
    {s t : Coroutines} {cs ds : List ℕ}
    → Steps s cs t ds
    → IsChain s cs
    → IsChain t ds × (in_main_coroutine t ≡ is_empty ds)
Steps-IsChain (done {s} {cs}) chain = (chain, main_lem s cs chain)
Steps-IsChain (resumes {s} {t} {cs} {ds} c fresh more) chain =
    Steps-IsChain more (resume-IsChain c s cs fresh chain)
Steps-IsChain (yields {s} {s'} {t} {cs} {ds} c went more) chain =
    Steps-IsChain more (yield-IsChain c s s' cs went chain)
Steps-IsChain (ends {s} {t} {cs} {ds} more) chain =
    Steps-IsChain more (end_wrapper-IsChain s cs chain)

-- A coroutine that was resumed outside all others and whose function ends stays the current one.
in_main_coroutine-end_wrapper :
    (c : ℕ) (s : Coroutines)
    → s.is_stop c ≡ false
    → in_main_coroutine (end_wrapper (resume c s)) ≡ false
unfolding in_main_coroutine end_wrapper resume
in_main_coroutine-end_wrapper c s live = ground (arith, live)
