-- ===== src/Rudp/Accepting.antt =====
-- The handler of unknown addresses that peer.cc gives: it adds the channels that the peer accepts.
use p2p_live.Prelude.{
  ℕ, ◌≡◌, refl, sym, ap, ap₂, ◌∙◌, arith, Bool, true, false, ◌||◌, Option, none, some, List, [],
  ◌∷◌, if◌then◌else◌, ◌==◌, ==_iff, nat_eq, inl, inr, Bool-cases, none-ne-some,
}
use p2p_live.SocketAddr.{SocketAddr, addr_eq_inst, addr_eq_iff}
use p2p_live.Rudp.{Ikcp, Endpoint, UserMap}
use p2p_live.Rudp.Endpoints.{find, fresh_endpoint, on_ikcp, speed, add_connection}
use p2p_live.Rudp.Directory.{same_key, IsUserMap}
use p2p_live.Rudp.Slots.{
  Slot, vacant, closed, open_at, view, swept, situation, is_vacant, is_closed, is_open,
}
use p2p_live.Rudp.Adding.{added, add_lem}
use p2p_live.Rudp.Traffic.{add_channels}

abbrev pub has : ℕ → List ℕ → Bool
has d [] = false
has d (c ∷ cs) = c == d || has d cs

pub key_lem : (a : SocketAddr) (c d : ℕ) → same_key a c a d ≡ (c == d)
key_lem a c d = ground (arith, addr_eq_iff a a, ==_iff c d)

module _ {K : Type 0} where
  abbrev pub opened : Slot K → Option (Endpoint K)
  opened vacant = none
  opened closed = none
  opened (open_at e) = some e

  pub find-view : (a : SocketAddr) (c : ℕ) (m : UserMap K) → find a c m ≡ opened (view m a c)
  find-view a c m = elim (situation a c m) [
    | is_vacant out gone s ↦ gone ∙ sym (ap opened s)
    | is_closed e at shut gone s ↦ gone ∙ sym (ap opened s)
    | is_open e got s ↦ got ∙ sym (ap opened s)
  ]

module _ {K : Type 0} (kcp : Ikcp K) where
  -- An endpoint that `add_connection` has just made, `config` included.
  abbrev pub new_endpoint : SocketAddr → ℕ → ℕ → Endpoint K
  new_endpoint a c t = on_ikcp kcp (speed kcp 1) (fresh_endpoint kcp a c t)

  abbrev pub found_after :
      SocketAddr → ℕ → ℕ → Slot K → SocketAddr → ℕ → Option (Endpoint K) → Option (Endpoint K)
  found_after a c t vacant b d o = if same_key a c b d then some (new_endpoint a c t) else o
  found_after a c t closed b d o = o
  found_after a c t (open_at e) b d o = o

  opened-swept : (s : Slot K) → opened (swept s) ≡ opened s
  opened-swept vacant = refl
  opened-swept closed = refl
  opened-swept (open_at e) = refl

  opened-added :
      (a b : SocketAddr) (c d t : ℕ) (s : Slot K) (m : UserMap K)
      → opened (added kcp a c t s (view m) b d) ≡ found_after a c t s b d (opened (view m b d))
  opened-added a b c d t vacant m = elim (Bool-cases (same_key a c b d)) [
    | inl same ↦ rw same refl
    | inr other ↦ rw other (opened-swept (view m b d))
  ]
  opened-added a b c d t closed m = opened-swept (view m b d)
  opened-added a b c d t (open_at e) m = refl

  -- What `find` gives after `add_connection`, at every address and channel.
  pub find-add_connection :
      (a b : SocketAddr) (c d t : ℕ) (m : UserMap K)
      → IsUserMap m
      → find b d (add_connection kcp a c t m) ≡ found_after a c t (view m a c) b d (find b d m)
  find-add_connection a b c d t m v =
      find-view b d (add_connection kcp a c t m)
      ∙ ap (λ f. opened (f b d)) (add_lem kcp a c t m v).0
      ∙ opened-added a b c d t (view m a c) m
      ∙ ap (found_after a c t (view m a c) b d) (sym (find-view b d m))

  still_vacant :
      (a b : SocketAddr) (c d t : ℕ) (s : Slot K) (m : UserMap K)
      → view m b d ≡ vacant
      → same_key a c b d ≡ false
      → added kcp a c t s (view m) b d ≡ vacant
  still_vacant a b c d t vacant m h other = rw (other, h) refl
  still_vacant a b c d t closed m h other = rw h refl
  still_vacant a b c d t (open_at e) m h other = h

  view-add_connection_ne :
      (a b : SocketAddr) (c d t : ℕ) (m : UserMap K)
      → IsUserMap m
      → view m b d ≡ vacant
      → same_key a c b d ≡ false
      → view (add_connection kcp a c t m) b d ≡ vacant
  view-add_connection_ne a b c d t m v h other =
      ap (λ f. f b d) (add_lem kcp a c t m v).0 ∙ still_vacant a b c d t (view m a c) m h other

  -- An open endpoint is left alone by `add_connection`.
  found_stays :
      (a b : SocketAddr) (c d t : ℕ) (e : Endpoint K) (m : UserMap K) (s : Slot K)
      → view m a c ≡ s
      → find b d m ≡ some e
      → found_after a c t s b d (find b d m) ≡ some e
  found_stays a b c d t e m vacant at got = elim (Bool-cases (same_key a c b d)) [
    | inl same ↦
        let one : a ≡ b = (addr_eq_iff a b).0 (ground (arith, same)) in
        let two : c ≡ d = (==_iff c d).0 (ground (arith, same)) in
        absurd (
          none-ne-some
            (ap opened (sym at) ∙ sym (find-view a c m) ∙ ap₂ (λ x y. find x y m) one two ∙ got))
    | inr other ↦ rw other got
  ]
  found_stays a b c d t e m closed at got = got
  found_stays a b c d t e m (open_at x) at got = got

  pub find-add_channels_old :
      (a b : SocketAddr) (cs : List ℕ) (d t : ℕ) (e : Endpoint K) (m : UserMap K)
      → IsUserMap m
      → find b d m ≡ some e
      → (find b d (add_channels kcp t a cs m) ≡ some e) × IsUserMap (add_channels kcp t a cs m)
  find-add_channels_old a b [] d t e m v got = (got, v)
  find-add_channels_old a b (c ∷ cs) d t e m v got =
      find-add_channels_old a b cs d t e (add_connection kcp a c t m) (add_lem kcp a c t m v).1
        (find-add_connection a b c d t m v ∙ found_stays a b c d t e m (view m a c) refl got)

  pub add_channels-IsUserMap :
      (a : SocketAddr) (cs : List ℕ) (t : ℕ) (m : UserMap K)
      → IsUserMap m
      → IsUserMap (add_channels kcp t a cs m)
  add_channels-IsUserMap a [] t m v = v
  add_channels-IsUserMap a (c ∷ cs) t m v =
      add_channels-IsUserMap a cs t (add_connection kcp a c t m) (add_lem kcp a c t m v).1

  pub find-add_channels :
      (a : SocketAddr) (cs : List ℕ) (d t : ℕ) (m : UserMap K)
      → IsUserMap m
      → view m a d ≡ vacant
      → has d cs ≡ true
      → find a d (add_channels kcp t a cs m) ≡ some (new_endpoint a d t)
  find-add_channels a [] d t m v h p = absurd cc
  find-add_channels a (c ∷ cs) d t m v h p = elim (Bool-cases (c == d)) [
    | inl same ↦
        let one : c ≡ d = (==_iff c d).0 same in
        let m1 = add_connection kcp a c t m in
        let fresh : find a d m1 ≡ some (new_endpoint a d t) =
          find-add_connection a a c d t m v
          ∙ ap (λ s. found_after a c t s a d (find a d m)) (ap (view m a) one ∙ h)
          ∙ rw (key_lem a c d, same) (ap (λ x. some (new_endpoint a x t)) one) in
        (find-add_channels_old a a cs d t (new_endpoint a d t) m1 (add_lem kcp a c t m v).1 fresh).0
    | inr other ↦
        find-add_channels a cs d t (add_connection kcp a c t m) (add_lem kcp a c t m v).1
          (view-add_connection_ne a a c d t m v h (key_lem a c d ∙ other))
          (ground (arith, p, other))
  ]

  pub view-add_channels :
      (a : SocketAddr) (cs : List ℕ) (d t : ℕ) (m : UserMap K)
      → IsUserMap m
      → view m a d ≡ vacant
      → has d cs ≡ false
      → view (add_channels kcp t a cs m) a d ≡ vacant
  view-add_channels a [] d t m v h p = h
  view-add_channels a (c ∷ cs) d t m v h p =
      let other : (c == d) ≡ false = ground (arith, p) in
      view-add_channels a cs d t (add_connection kcp a c t m) (add_lem kcp a c t m v).1
        (view-add_connection_ne a a c d t m v h (key_lem a c d ∙ other)) (ground (arith, p))
