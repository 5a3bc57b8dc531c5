-- ===== src/Rudp/Adding.antt =====
-- The operations of the table on the directory, and `add_connection` in each situation.
use p2p_live.Prelude.{
  ℕ, ◌≡◌, refl, sym, ap, ap₂, ◌∙◌, arith, Option, none, some, if◌then◌else◌, ◌==◌, ==_iff, inl, inr,
  Bool-cases, lookup, emplace, insert, nat_eq, lookup-emplace_new, emplace_old, emplace-IsMap,
}
use p2p_live.SocketAddr.{SocketAddr, addr_eq_inst}
use p2p_live.Rudp.{Ikcp, Endpoint, UserMap}
use p2p_live.Rudp.Endpoints.{
  inner_of, entry, find, fresh_endpoint, on_ikcp, speed, config, store_endpoint, add_connection,
  write_found,
}
use p2p_live.Rudp.Directory.{
  IsUserMap, purge-IsUserMap, write_endpoint-IsUserMap, store-IsUserMap, inner-IsMap, inner_lem,
}
use p2p_live.Rudp.Slots.{
  Slot, vacant, closed, open_at, Directory, slot_of, view, put, swept, sweep, is_vacant, is_closed,
  is_open, situation, view-sweep, view-insert, sweep-put, put-put, put_self, put_here, shut_slot,
  view-write_endpoint,
}

module _ {K : Type 0} where
  abbrev pub changed :
      SocketAddr → ℕ → (Endpoint K → Endpoint K) → Slot K → Directory K → Directory K
  changed a c f vacant d = d
  changed a c f closed d = d
  changed a c f (open_at e) d = put a c (slot_of (some (f e))) d

  pub view-written :
      (f : Endpoint K → Endpoint K) (a : SocketAddr) (c : ℕ) (m : UserMap K)
      → view (write_found f a c (find a c m) m) ≡ changed a c f (view m a c) (view m)
  view-written f a c m = elim (situation a c m) [
    | is_vacant out gone s ↦
        ap (λ o. view (write_found f a c o m)) gone ∙ sym (ap (λ z. changed a c f z (view m)) s)
    | is_closed e at shut gone s ↦
        ap (λ o. view (write_found f a c o m)) gone ∙ sym (ap (λ z. changed a c f z (view m)) s)
    | is_open e got s ↦
        ap (λ o. view (write_found f a c o m)) got
        ∙ view-write_endpoint a c (f e) m
        ∙ sym (ap (λ z. changed a c f z (view m)) s)
  ]

  pub write_found-IsUserMap :
      (f : Endpoint K → Endpoint K) (a : SocketAddr) (c : ℕ) (o : Option (Endpoint K))
      (m : UserMap K)
      → IsUserMap m
      → IsUserMap (write_found f a c o m)
  write_found-IsUserMap f a c none m v = v
  write_found-IsUserMap f a c (some e) m v = write_endpoint-IsUserMap a c (f e) m v

module _ {K : Type 0} (kcp : Ikcp K) where
  -- A closed slot is not used again: `add_connection` only sweeps it away.
  abbrev pub added : SocketAddr → ℕ → ℕ → Slot K → Directory K → Directory K
  added a c t vacant d =
      put a c (open_at (on_ikcp kcp (speed kcp 1) (fresh_endpoint kcp a c t))) (sweep d)
  added a c t closed d = sweep d
  added a c t (open_at e) d = d

  view-store_endpoint :
      (a : SocketAddr) (c t : ℕ) (o : Option (Endpoint K)) (m : UserMap K)
      → IsUserMap m
      → ((i : ℕ)
          → lookup i (emplace c (fresh_endpoint kcp a c t) (inner_of (lookup a m)))
            ≡ (if c == i then o else entry a i m))
      → view (store_endpoint kcp a c t m) ≡ put a c (swept (slot_of o)) (sweep (view m))
  unfolding store_endpoint
  view-store_endpoint a c t o m v h =
      let x = emplace c (fresh_endpoint kcp a c t) (inner_of (lookup a m)) in
      view-sweep (insert a x m) (
        store-IsUserMap a x m v
          (emplace-IsMap c (fresh_endpoint kcp a c t) (inner_of (lookup a m)) (inner-IsMap m v a)))
      ∙ ap sweep (view-insert a c o x m h)
      ∙ sweep-put a c (slot_of o) (view m)

  fresh_slot :
      (a : SocketAddr) (c t : ℕ)
      → slot_of (some (fresh_endpoint kcp a c t)) ≡ open_at (fresh_endpoint kcp a c t)
  unfolding fresh_endpoint
  fresh_slot a c t = refl

  configured_slot :
      (a : SocketAddr) (c t : ℕ)
      → slot_of (some (on_ikcp kcp (speed kcp 1) (fresh_endpoint kcp a c t)))
        ≡ open_at (on_ikcp kcp (speed kcp 1) (fresh_endpoint kcp a c t))
  unfolding fresh_endpoint
  configured_slot a c t = refl

  add_vacant :
      (a : SocketAddr) (c t : ℕ) (m : UserMap K)
      → IsUserMap m
      → entry a c m ≡ none
      → view (config kcp a c 1 (store_endpoint kcp a c t m)) ≡ added a c t vacant (view m)
  unfolding config
  add_vacant a c t m v out =
      let e0 = fresh_endpoint kcp a c t in
      let inner = inner_of (lookup a m) in
      let f = on_ikcp kcp (speed kcp 1) in
      let there : (i : ℕ)
          → lookup i (emplace c e0 inner) ≡ (if c == i then some e0 else entry a i m) =
        λ i.
          lookup-emplace_new c i e0 inner (inner_lem a c m ∙ out)
          ∙ ap (λ z. if c == i then some e0 else z) (inner_lem a i m) in
      let stored = store_endpoint kcp a c t m in
      let first : slot_of (some e0) ≡ open_at e0 = fresh_slot a c t in
      let next : slot_of (some (f e0)) ≡ open_at (f e0) = configured_slot a c t in
      let seen : view stored ≡ put a c (open_at e0) (sweep (view m)) =
        view-store_endpoint a c t (some e0) m v there
        ∙ ap (λ z. put a c (swept z) (sweep (view m))) first in
      let at : view stored a c ≡ open_at e0 =
        ap (λ d. d a c) seen ∙ put_here a c (open_at e0) (sweep (view m)) in
      view-written f a c stored
      ∙ ap₂ (λ z d. changed a c f z d) at seen
      ∙ put-put a c (slot_of (some (f e0))) (open_at e0) (sweep (view m))
      ∙ ap (λ z. put a c z (sweep (view m))) next

  add_closed :
      (a : SocketAddr) (c t : ℕ) (m : UserMap K) (e : Endpoint K)
      → IsUserMap m
      → entry a c m ≡ some e
      → e.ikcp ≡ none
      → view (config kcp a c 1 (store_endpoint kcp a c t m)) ≡ sweep (view m)
  unfolding config view
  add_closed a c t m e v there shut =
      let e0 = fresh_endpoint kcp a c t in
      let inner = inner_of (lookup a m) in
      let f = on_ikcp kcp (speed kcp 1) in
      let old : emplace c e0 inner ≡ inner = emplace_old c e0 e inner (inner_lem a c m ∙ there) in
      let kept : (i : ℕ)
          → lookup i (emplace c e0 inner) ≡ (if c == i then entry a c m else entry a i m) =
        λ i. ap (lookup i) old ∙ inner_lem a i m ∙ (elim (Bool-cases (c == i)) [
          | inl same ↦ rw same (ap (λ z. entry a z m) (sym ((==_iff c i).0 same)))
          | inr other ↦ rw other refl
        ]) in
      let stored = store_endpoint kcp a c t m in
      let here : sweep (view m) a c ≡ vacant =
        ap (λ o. swept (slot_of o)) there ∙ ap swept (shut_slot e shut) in
      let seen : view stored ≡ sweep (view m) =
        view-store_endpoint a c t (entry a c m) m v kept ∙ put_self a c (sweep (view m)) in
      view-written f a c stored ∙ ap₂ (λ z d. changed a c f z d) (ap (λ d. d a c) seen ∙ here) seen

  store_endpoint-IsUserMap :
      (a : SocketAddr) (c t : ℕ) (m : UserMap K)
      → IsUserMap m
      → IsUserMap (store_endpoint kcp a c t m)
  unfolding store_endpoint
  store_endpoint-IsUserMap a c t m v =
      let x = emplace c (fresh_endpoint kcp a c t) (inner_of (lookup a m)) in
      purge-IsUserMap (insert a x m) (
        store-IsUserMap a x m v
          (emplace-IsMap c (fresh_endpoint kcp a c t) (inner_of (lookup a m)) (inner-IsMap m v a)))

  pub config-IsUserMap :
      (a : SocketAddr) (c level : ℕ) (m : UserMap K)
      → IsUserMap m
      → IsUserMap (config kcp a c level m)
  unfolding config
  config-IsUserMap a c level m v =
      write_found-IsUserMap (on_ikcp kcp (speed kcp level)) a c (find a c m) m v

  add_none :
      (a : SocketAddr) (c t : ℕ) (m : UserMap K)
      → find a c m ≡ none
      → add_connection kcp a c t m ≡ config kcp a c 1 (store_endpoint kcp a c t m)
  unfolding add_connection
  add_none a c t m h = ground (arith, h)

  add_some :
      (a : SocketAddr) (c t : ℕ) (m : UserMap K) (e : Endpoint K)
      → find a c m ≡ some e
      → add_connection kcp a c t m ≡ m
  unfolding add_connection
  add_some a c t m e h = ground (arith, h)

  -- `add_connection` in each situation, on the directory and on the invariant.
  pub add_lem :
      (a : SocketAddr) (c t : ℕ) (m : UserMap K)
      → IsUserMap m
      → (view (add_connection kcp a c t m) ≡ added a c t (view m a c) (view m))
        × IsUserMap (add_connection kcp a c t m)
  add_lem a c t m v =
      let made =
        config-IsUserMap a c 1 (store_endpoint kcp a c t m) (store_endpoint-IsUserMap a c t m v) in
      elim (situation a c m) [
        | is_vacant out gone s ↦
            rw (add_none a c t m gone)
              (add_vacant a c t m v out ∙ sym (ap (λ z. added a c t z (view m)) s), made)
        | is_closed e at shut gone s ↦
            rw (add_none a c t m gone)
              (add_closed a c t m e v at shut ∙ sym (ap (λ z. added a c t z (view m)) s), made)
        | is_open e got s ↦
            rw (add_some a c t m e got) (sym (ap (λ z. added a c t z (view m)) s), v)
      ]
