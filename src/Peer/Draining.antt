-- ===== src/Peer/Draining.antt =====
-- The queues of a channel and the runs that are scheduled for them.
use p2p_live.Prelude.{
  ℕ, suc, ◌+◌, ◌-◌, ◌≤◌, ◌≡◌, refl, arith, Bool, true, some, List, [], ◌∷◌, ◌++◌, Option-cases, inl,
  inr, ◌⊎◌, ap,
}
use p2p_live.Peer.{PeerPackage, ChannelInfo, empty_channel}
use p2p_live.Peer.Sending.{send_fragments}
use p2p_live.Peer.Queues.{
  Flushed, Schedule, send_queue, flush_queues, do_write, async_do_write, pull_meta_data,
  pull_fragment_from_peer, send_fragment_to_peer, send_meta_data_to_peer,
}

abbrev pub waits {ℓ} : {A : Type ℓ} → List A → ℕ
waits [] = 0
waits (x ∷ xs) = 1

-- How many of the four queues hold something.
unfoldable pub pending : ChannelInfo → ℕ
pending ch =
    waits ch.frag_request_queue
    + waits ch.fragment_send_queue
    + (waits ch.meta_request_queue + waits ch.meta_send_queue)

-- What may happen: a call of one of the four functions, or a scheduled run that does not throw.
pub data Step (size : PeerPackage → ℕ) (mtu sid : ℕ) (c : ℕ) : Schedule → Schedule → Type 0 where
  pulls_meta : (key : ℕ) {s : Schedule} → Step size mtu sid c s (pull_meta_data key s)
  pulls_fragment :
      (ids : List ℕ) (priority : ℕ) {s : Schedule}
      → Step size mtu sid c s (pull_fragment_from_peer ids priority s)
  sends_fragment :
      (fid : ℕ) (content : List ℕ) {s : Schedule}
      → Step size mtu sid c s (send_fragment_to_peer fid content s)
  sends_meta :
      (key : ℕ) (value : List ℕ) {s : Schedule}
      → Step size mtu sid c s (send_meta_data_to_peer key value s)
  runs_one :
      (has_connect : Bool) (f : Flushed) {s : Schedule} {n : ℕ}
      → s.runs ≡ suc n
      → do_write size mtu sid has_connect c s.channel ≡ some f
      → f.ok ≡ true
      → Step size mtu sid c s (record s { channel = f.channel; runs = n })

-- The connection is there from the start and is not closed.
pub data Reach (size : PeerPackage → ℕ) (mtu sid : ℕ) (c : ℕ) : Schedule → Type 0 where
  start : Reach size mtu sid c (record { channel = empty_channel; runs = 0; connected = true })
  after :
      {s t : Schedule} → Reach size mtu sid c s → Step size mtu sid c s t → Reach size mtu sid c t

waits-append {ℓ} : {A : Type ℓ} (xs : List A) (a : A) → waits (xs ++ a ∷ []) ≤ suc (waits xs)
waits-append [] a = omega arith
waits-append (x ∷ xs) a = omega arith

waits_none {ℓ} : {A : Type ℓ} (xs : List A) → waits xs ≡ 0 → xs ≡ []
waits_none [] h = refl
waits_none (x ∷ xs) h = absurd (omega arith)

List-cases {ℓ} : {A : Type ℓ} (xs : List A) → (xs ≡ []) ⊎ ((x : A) × (ys : List A) × (xs ≡ x ∷ ys))
List-cases [] = inl refl
List-cases (x ∷ xs) = inr (x, xs, refl)

-- A queue that is sent without an exception is empty afterwards, and the other queues are as before.
send_queue_lem :
    (size : PeerPackage → ℕ) (mtu : ℕ) (ch : ChannelInfo) (q : List (ℕ × List ℕ)) (f : Flushed)
    → send_queue size mtu ch q ≡ some f
    → f.ok ≡ true
    → f.channel ≡ record ch { fragment_send_queue = [] }
unfolding send_queue
send_queue_lem size mtu ch [] f e ok = cc
send_queue_lem size mtu ch ((fid, content) ∷ q) f e ok =
    elim (Option-cases (send_fragments size mtu fid content)) [
      | inl out ↦ ground arith
      | inr (s, sent) ↦ elim (Option-cases (send_queue size mtu ch q)) [
        | inl out ↦ ground arith
        | inr (g, rest) ↦ let same = send_queue_lem size mtu ch q g rest in ground arith
      ]
    ]

-- A run that does not throw empties one queue where there is one to empty.
flush_queues-pending :
    (size : PeerPackage → ℕ) (mtu : ℕ) (ch : ChannelInfo) (f : Flushed)
    → flush_queues size mtu ch ≡ some f
    → f.ok ≡ true
    → pending f.channel ≡ pending ch - 1
unfolding flush_queues pending
flush_queues-pending size mtu ch f e ok = elim (List-cases ch.frag_request_queue) [
  | inr (r, rs, at) ↦ ground arith
  | inl none_a ↦ elim (List-cases ch.fragment_send_queue) [
    | inr (x, xs, at) ↦
        let q = send_queue_lem size mtu ch (x ∷ xs) f (ground arith) ok in
        ground (
          arith,
          ap (λ z. z.frag_request_queue) q,
          ap (λ z. z.fragment_send_queue) q,
          ap (λ z. z.meta_request_queue) q,
          ap (λ z. z.meta_send_queue) q,
        )
    | inl none_b ↦ elim (List-cases ch.meta_request_queue) [
      | inr (k, ks, at) ↦ ground arith
      | inl none_c ↦ elim (List-cases ch.meta_send_queue) [
        | inr (k, ks, at) ↦ ground arith
        | inl none_d ↦ ground arith
      ]
    ]
  ]
]

run-pending :
    (size : PeerPackage → ℕ) (mtu sid c : ℕ) (has_connect : Bool) (ch : ChannelInfo) (f : Flushed)
    → do_write size mtu sid has_connect c ch ≡ some f
    → f.ok ≡ true
    → pending f.channel ≡ pending ch - 1
unfolding do_write
run-pending size mtu sid c has_connect ch f e ok = elim (Option-cases (flush_queues size mtu ch)) [
  | inl out ↦ ground arith
  | inr (g, inner) ↦ let k = flush_queues-pending size mtu ch g inner in ground arith
]

module _ (size : PeerPackage → ℕ) (mtu sid c : ℕ) where
  -- Each queue that holds something has a run that is scheduled, on a connection.
  IsServed : Schedule → Type 0
  IsServed s = (pending s.channel ≤ s.runs) × (s.connected ≡ true)

  Step-IsServed : {s t : Schedule} → Step size mtu sid c s t → IsServed s → IsServed t
  unfolding IsServed pending pull_meta_data pull_fragment_from_peer send_fragment_to_peer
      send_meta_data_to_peer async_do_write
  Step-IsServed (pulls_meta key {s}) (h, up) =
      rw up (omega (arith, waits-append s.channel.meta_request_queue key, h), refl)
  Step-IsServed (pulls_fragment ids priority {s}) (h, up) =
      rw up (omega (arith, waits-append s.channel.frag_request_queue (ids, priority), h), refl)
  Step-IsServed (sends_fragment fid content {s}) (h, up) =
      rw up (omega (arith, waits-append s.channel.fragment_send_queue (fid, content), h), refl)
  Step-IsServed (sends_meta key value {s}) (h, up) =
      rw up (omega (arith, waits-append s.channel.meta_send_queue (key, value), h), refl)
  Step-IsServed (runs_one has_connect f {s} {n} one e ok) (h, up) =
      (omega (arith, run-pending size mtu sid c has_connect s.channel f e ok, h, one), up)

  Reach-IsServed : {s : Schedule} → Reach size mtu sid c s → IsServed s
  unfolding IsServed pending
  Reach-IsServed start = (omega arith, refl)
  Reach-IsServed (after r step) = Step-IsServed step (Reach-IsServed r)

  -- Although one run drains one kind of queue only, nothing is left behind: on a channel whose
  -- connection lives from the start, once every scheduled run has been and none threw, all four
  -- queues are empty.
  pub Reach-drained :
      {ch : ChannelInfo}
      → Reach size mtu sid c (record { channel = ch; runs = 0; connected = true })
      → (ch.frag_request_queue ≡ [])
        × (ch.fragment_send_queue ≡ [])
        × (ch.meta_request_queue ≡ [])
        × (ch.meta_send_queue ≡ [])
  unfolding pending IsServed
  Reach-drained {ch} r =
      let k = (Reach-IsServed r).0 in
      (
        waits_none ch.frag_request_queue (omega arith),
        waits_none ch.fragment_send_queue (omega arith),
        waits_none ch.meta_request_queue (omega arith),
        waits_none ch.meta_send_queue (omega arith),
      )
