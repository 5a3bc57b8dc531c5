-- ===== src/Rudp/Slots.antt =====
-- What the nested maps promise: a directory that says of each address and channel whether it is
-- vacant, open, or closed and not swept away yet.
use p2p_live.Prelude.{
  ℕ, ◌≡◌, refl, sym, ap, ap₂, ◌∙◌, arith, true, Option, none, some, List, if◌then◌else◌, ◌==◌,
  ==_iff, inl, inr, Bool-cases, Option-cases, lookup, insert, nat_eq, and_then,
}
use mathlib.Core.Path.{fun_ext}
use p2p_live.SocketAddr.{SocketAddr, addr_eq_inst, addr_eq_iff}
use p2p_live.Rudp.{Endpoint, UserMap}
use p2p_live.Rudp.Endpoints.{entry, if_open, find, purge, write_endpoint}
use p2p_live.Rudp.Directory.{
  same_key, IsUserMap, entry-purge, entry-write_endpoint, entry-insert_at,
}

pub data Slot (K : Type 0) : Type 0 where
  vacant closed : Slot K
  open_at : Endpoint K → Slot K

abbrev pub Directory : Type 0 → Type 0
Directory K = SocketAddr → ℕ → Slot K

module _ {K : Type 0} where
  abbrev pub slot_of : Option (Endpoint K) → Slot K
  slot_of none = vacant
  slot_of (some e) = elim e.ikcp [ none ↦ closed | some k ↦ open_at e ]

  -- What the maps say of an address and a channel.
  unfoldable pub view : UserMap K → Directory K
  unfolding entry
  view m a c = slot_of (entry a c m)

  abbrev pub put : SocketAddr → ℕ → Slot K → Directory K → Directory K
  put a c new d = λ b x. if same_key a c b x then new else d b x

  abbrev pub swept : Slot K → Slot K
  swept closed = vacant
  swept s = s

  abbrev pub sweep : Directory K → Directory K
  sweep d = λ b x. swept (d b x)

pub same_key_refl : (a : SocketAddr) (c : ℕ) → same_key a c a c ≡ true
same_key_refl a c = ground (arith, addr_eq_iff a a, ==_iff c c)

module _ {K : Type 0} where
  shut_lem : (e : Endpoint K) → e.ikcp ≡ none → if_open e ≡ none
  shut_lem e h = ground (arith, h)

  pub shut_slot : (e : Endpoint K) → e.ikcp ≡ none → slot_of (some e) ≡ closed
  shut_slot e h = ground (arith, h)

  live_lem : (e : Endpoint K) (k : K) → e.ikcp ≡ some k → if_open e ≡ some e
  live_lem e k h = ground (arith, h)

  live_slot : (e : Endpoint K) (k : K) → e.ikcp ≡ some k → slot_of (some e) ≡ open_at e
  live_slot e k h = ground (arith, h)

  swept_lem : (o : Option (Endpoint K)) → slot_of (and_then o if_open) ≡ swept (slot_of o)
  swept_lem none = refl
  swept_lem (some e) = elim (Option-cases e.ikcp) [
    | inl shut ↦ ap slot_of (shut_lem e shut) ∙ sym (ap swept (shut_slot e shut))
    | inr (k, live) ↦
        ap slot_of (live_lem e k live) ∙ live_slot e k live ∙ sym (ap swept (live_slot e k live))
  ]

  pub view-write_endpoint :
      (a : SocketAddr) (c : ℕ) (e : Endpoint K) (m : UserMap K)
      → view (write_endpoint a c e m) ≡ put a c (slot_of (some e)) (view m)
  unfolding view
  view-write_endpoint a c e m = fun_ext (λ b. fun_ext (λ x.
      ap slot_of (entry-write_endpoint a b c x e m) ∙ (elim (Bool-cases (same_key a c b x)) [
        | inl same ↦ rw same refl
        | inr other ↦ rw other refl
      ])))

  -- What `find` gives for each kind of slot.
  pub data Situation (a : SocketAddr) (c : ℕ) (m : UserMap K) : Type 0 where
    is_vacant : entry a c m ≡ none → find a c m ≡ none → view m a c ≡ vacant → Situation a c m
    is_closed :
        (e : Endpoint K)
        → entry a c m ≡ some e
        → e.ikcp ≡ none
        → find a c m ≡ none
        → view m a c ≡ closed
        → Situation a c m
    is_open : (e : Endpoint K) → find a c m ≡ some e → view m a c ≡ open_at e → Situation a c m

  pub situation : (a : SocketAddr) (c : ℕ) (m : UserMap K) → Situation a c m
  unfolding find view
  situation a c m = elim (Option-cases (entry a c m)) [
    | inl out ↦ is_vacant out (ap (λ o. and_then o if_open) out) (ap slot_of out)
    | inr (e, at) ↦ elim (Option-cases e.ikcp) [
      | inl shut ↦
          is_closed e at shut (ap (λ o. and_then o if_open) at ∙ shut_lem e shut)
            (ap slot_of at ∙ shut_slot e shut)
      | inr (k, live) ↦
          is_open e (ap (λ o. and_then o if_open) at ∙ live_lem e k live)
            (ap slot_of at ∙ live_slot e k live)
    ]
  ]

  pub view-sweep : (m : UserMap K) → IsUserMap m → view (purge m) ≡ sweep (view m)
  unfolding view
  view-sweep m v =
      fun_ext (λ b. fun_ext (λ x. ap slot_of (entry-purge b x m v) ∙ swept_lem (entry b x m)))

  pub view-insert :
      (a : SocketAddr) (c : ℕ) (o : Option (Endpoint K)) (x : List (ℕ × Endpoint K)) (m : UserMap K)
      → ((i : ℕ) → lookup i x ≡ (if c == i then o else entry a i m))
      → view (insert a x m) ≡ put a c (slot_of o) (view m)
  unfolding view
  view-insert a c o x m h = fun_ext (λ b. fun_ext (λ i.
      ap slot_of (entry-insert_at a b c i o x m h) ∙ (elim (Bool-cases (same_key a c b i)) [
        | inl same ↦ rw same refl
        | inr other ↦ rw other refl
      ])))

  pub sweep-put :
      (a : SocketAddr) (c : ℕ) (s : Slot K) (d : Directory K)
      → sweep (put a c s d) ≡ put a c (swept s) (sweep d)
  sweep-put a c s d = fun_ext (λ b. fun_ext (λ i. elim (Bool-cases (same_key a c b i)) [
    | inl same ↦ rw same refl
    | inr other ↦ rw other refl
  ]))

  pub put-put :
      (a : SocketAddr) (c : ℕ) (s t : Slot K) (d : Directory K)
      → put a c s (put a c t d) ≡ put a c s d
  put-put a c s t d = fun_ext (λ b. fun_ext (λ i. elim (Bool-cases (same_key a c b i)) [
    | inl same ↦ rw same refl
    | inr other ↦ rw other refl
  ]))

  pub put_self : (a : SocketAddr) (c : ℕ) (d : Directory K) → put a c (d a c) d ≡ d
  put_self a c d = fun_ext (λ b. fun_ext (λ i. elim (Bool-cases (same_key a c b i)) [
    | inl same ↦
        let one : a ≡ b = (addr_eq_iff a b).0 (ground (arith, same)) in
        let two : c ≡ i = (==_iff c i).0 (ground (arith, same)) in rw same (ap₂ d one two)
    | inr other ↦ rw other refl
  ]))

  pub put_here : (a : SocketAddr) (c : ℕ) (s : Slot K) (d : Directory K) → put a c s d a c ≡ s
  put_here a c s d = rw (same_key_refl a c) refl
