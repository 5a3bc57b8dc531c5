-- ===== src/Rudp/Reconnect.antt =====
-- A connection to an address and channel whose endpoint was closed.
use p2p_live.Prelude.{
  ℕ, ◌≡◌, true, sym, ap, ◌∙◌, arith, false, none, some, nat_eq, some_eq, none-ne-some,
}
use p2p_live.SocketAddr.{SocketAddr, addr_eq_inst}
use p2p_live.Rudp.{Ikcp, Endpoint, UserMap}
use p2p_live.Rudp.Endpoints.{
  Wait, uses_destroyed, find, add_connection, aclose_connection, remove_connection, wait_sent,
  end_close,
}
use p2p_live.Rudp.Directory.{IsUserMap}
use p2p_live.Rudp.Slots.{
  vacant, closed, open_at, slot_of, view, swept, is_vacant, is_closed, is_open, situation, put_here,
}
use p2p_live.Rudp.Adding.{changed, added, view-written, add_lem}
use p2p_live.Rudp.Refinement.{removes, step_map, step_map-IsUserMap}

module _ {K : Type 0} (kcp : Ikcp K) where
  view_found :
      (a : SocketAddr) (c : ℕ) (e : Endpoint K) (m : UserMap K)
      → find a c m ≡ some e
      → view m a c ≡ open_at e
  view_found a c e m got = elim (situation a c m) [
    | is_vacant out gone s ↦ absurd (none-ne-some (sym gone ∙ got))
    | is_closed x at shut gone s ↦ absurd (none-ne-some (sym gone ∙ got))
    | is_open x there s ↦ s ∙ ap open_at (some_eq (sym there ∙ got))
  ]

  find_vacant : (a : SocketAddr) (c : ℕ) (m : UserMap K) → view m a c ≡ vacant → find a c m ≡ none
  find_vacant a c m h = elim (situation a c m) [
    | is_vacant out gone s ↦ gone
    | is_closed x at shut gone s ↦ gone
    | is_open x there s ↦ absurd (cc (sym s ∙ h))
  ]

  closed_uses :
      (a : SocketAddr) (c : ℕ) (m : UserMap K)
      → view m a c ≡ closed
      → uses_destroyed kcp a c m ≡ true
  unfolding uses_destroyed
  closed_uses a c m h = elim (situation a c m) [
    | is_vacant out gone s ↦ absurd (cc (sym s ∙ h))
    | is_closed x at shut gone s ↦ ground (arith, gone, at)
    | is_open x there s ↦ absurd (cc (sym s ∙ h))
  ]

  closed_slot :
      (w : Wait K) (e : Endpoint K) (k sent : K)
      → e.ikcp ≡ some k
      → e.is_closing ≡ false
      → wait_sent kcp w.resumes k ≡ some sent
      → slot_of (some (aclose_connection kcp w e)) ≡ closed
  unfolding aclose_connection end_close
  closed_slot w e k sent live here done = ground (arith, live, here, done)

  -- Where everything is sent, or is once the coroutine has waited, `remove_connection` closes the
  -- endpoint; an `add_connection` for the same address and channel that comes next leaves none open in
  -- the table, and goes on with an endpoint that is destroyed, since `emplace` finds the closed one.
  pub find-add-remove :
      (a : SocketAddr) (c t : ℕ) (e : Endpoint K) (k sent : K) (w : Wait K) (m : UserMap K)
      → IsUserMap m
      → find a c m ≡ some e
      → e.ikcp ≡ some k
      → e.is_closing ≡ false
      → wait_sent kcp w.resumes k ≡ some sent
      → (find a c (add_connection kcp a c t (remove_connection kcp a c w m)) ≡ none)
        × (uses_destroyed kcp a c (remove_connection kcp a c w m) ≡ true)
  unfolding remove_connection find step_map
  find-add-remove a c t e k sent w m v got live here done =
      let m' = remove_connection kcp a c w m in
      let v' = step_map-IsUserMap kcp (removes a c w) m v in
      let shown : view m' ≡ changed a c (aclose_connection kcp w) (view m a c) (view m) =
        view-written (aclose_connection kcp w) a c m in
      let gone : view m' a c ≡ closed =
        ap (λ d. d a c)
          (shown
            ∙ ap (λ z. changed a c (aclose_connection kcp w) z (view m)) (view_found a c e m got))
        ∙ put_here a c (slot_of (some (aclose_connection kcp w e))) (view m)
        ∙ closed_slot w e k sent live here done in
      let after : view (add_connection kcp a c t m') a c ≡ vacant =
        ap (λ d. d a c) ((add_lem kcp a c t m' v').0 ∙ ap (λ z. added kcp a c t z (view m')) gone)
        ∙ ap swept gone in
      (find_vacant a c (add_connection kcp a c t m') after, closed_uses a c m' gone)
