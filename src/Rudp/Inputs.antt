-- ===== src/Rudp/Inputs.antt =====
-- The queue of an endpoint and what of it reaches ikcp.
use p2p_live.Prelude.{
  ℕ, ◌≡◌, refl, ap, arith, true, false, List, [], ◌∷◌, ◌++◌, inl, inr, Bool-cases,
}
use p2p_live.Rudp.{Ikcp}
use p2p_live.Rudp.Traffic.{input_all}

module _ {K : Type 0} (kcp : Ikcp K) where
  -- ikcp takes the datagrams one after the other, from one state to the other.
  pub data Inputs : List (List ℕ) → K → K → Type 0 where
    nothing : {k : K} → Inputs [] k k
    next :
        {d : List ℕ} {q : List (List ℕ)} {k k' k'' : K}
        → kcp.input d k ≡ (k', true)
        → Inputs q k' k''
        → Inputs (d ∷ q) k k''

  -- Nothing is left, or ikcp refuses the first of what is.
  pub data Stops : List (List ℕ) → K → K → Type 0 where
    empty : {k : K} → Stops [] k k
    refused :
        {d : List ℕ} {q : List (List ℕ)} {k k' : K}
        → kcp.input d k ≡ (k', false)
        → Stops (d ∷ q) k k'

  -- The loop hands a first part of the queue to ikcp in order, all of it taken, and leaves the rest,
  -- which is empty or starts with a datagram that ikcp refuses in the state that it is in by then.
  pub input_all_lem :
      (q : List (List ℕ)) (k : K)
      → (taken : List (List ℕ)) × (q ≡ taken ++ (input_all kcp q k).0)
        × (k' : K) × Inputs taken k k'
        × Stops (input_all kcp q k).0 k' (input_all kcp q k).1
  unfolding input_all
  input_all_lem [] k = ([], refl, k, nothing, empty)
  input_all_lem (d ∷ q) k =
      let k1 = (kcp.input d k).0 in
      let (taken, split, k', path, end) = input_all_lem q k1 in
      elim (Bool-cases (kcp.input d k).1) [
        | inl took ↦
            rw took (d ∷ taken, ap (λ r. d ∷ r) split, k', next (ground (arith, took)) path, end)
        | inr not_taken ↦ rw not_taken ([], refl, k, nothing, refused (ground (arith, not_taken)))
      ]
