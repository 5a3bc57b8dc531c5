-- ===== src/Rudp/Blocking.antt =====
-- A datagram that ikcp refuses, at the head of an endpoint's queue.
use p2p_live.Prelude.{
  ℕ, ◌≡◌, refl, sym, ap, ◌∙◌, arith, Bool, true, false, some, List, [], ◌∷◌, ◌++◌, inl, inr,
  Bool-cases, Option-cases,
}
use mathlib.Core.List.{append_assoc, append-nil}
use p2p_live.Timer.{TimeManager}
use p2p_live.Rudp.{Ikcp, Endpoint}
use p2p_live.Rudp.Timing.{set_timer}
use p2p_live.Rudp.Traffic.{
  queue_datagram, input_all, update_endpoint, update_ikcp, on_tick, read_endpoint, write_message,
  waiting,
}

-- What happens to an endpoint between its creation and its close.
pub data Event : Type 0 where
  arrives : (now : ℕ) → List ℕ → Event
  ticks : (base upd cur now callback : ℕ) → Event
  reads : (base cur now callback : ℕ) → (stop : Bool) → (room : ℕ) → Event
  writes : (base cur now callback : ℕ) → (stop : Bool) → List ℕ → Event

abbrev pub arrivals : List Event → List (List ℕ)
arrivals [] = []
arrivals (arrives now bytes ∷ es) = bytes ∷ arrivals es
arrivals (ticks base upd cur now callback ∷ es) = arrivals es
arrivals (reads base cur now callback stop room ∷ es) = arrivals es
arrivals (writes base cur now callback stop bytes ∷ es) = arrivals es

module _ {K : Type 0} (kcp : Ikcp K) where
  unfoldable pub event_step : Event → Endpoint K × TimeManager → Endpoint K × TimeManager
  unfolding queue_datagram on_tick read_endpoint write_message
  event_step (arrives now bytes) (e, tm) = (queue_datagram now bytes e, tm)
  event_step (ticks base upd cur now callback) (e, tm) = on_tick kcp base upd cur now callback e tm
  event_step (reads base cur now callback stop room) (e, tm) =
      let c = read_endpoint kcp base cur now callback stop room e tm in (c.endpoint, c.timers)
  event_step (writes base cur now callback stop bytes) (e, tm) =
      let c = write_message kcp base cur now callback stop bytes e tm in (c.endpoint, c.timers)

  unfoldable pub run_events : List Event → Endpoint K × TimeManager → Endpoint K × TimeManager
  unfolding event_step
  run_events [] s = s
  run_events (ev ∷ evs) s = run_events evs (event_step ev s)

  pub queue-set_timer :
      (base cur now callback : ℕ) (e : Endpoint K) (tm : TimeManager)
      → (set_timer kcp base cur now callback e tm).0.recv_queue ≡ e.recv_queue
  unfolding set_timer
  queue-set_timer base cur now callback e tm = elim (Option-cases e.ikcp) [
    | inl shut ↦ ground (arith, shut)
    | inr (k, live) ↦ ground (arith, live)
  ]

  queue-update_endpoint :
      (d : List ℕ) (q : List (List ℕ)) (e : Endpoint K)
      → ((k : K) → (kcp.input d k).1 ≡ false)
      → e.recv_queue ≡ d ∷ q
      → (update_endpoint kcp e).recv_queue ≡ d ∷ q
  unfolding update_endpoint input_all
  queue-update_endpoint d q e h at = elim (Option-cases e.ikcp) [
    | inl shut ↦ ground (arith, shut, at)
    | inr (k, live) ↦ ground (arith, live, at, h k)
  ]

  queue-update_ikcp :
      (base cur : ℕ) (e : Endpoint K) → (update_ikcp kcp base cur e).recv_queue ≡ e.recv_queue
  unfolding update_ikcp
  queue-update_ikcp base cur e = elim (Option-cases e.ikcp) [
    | inl shut ↦ ground (arith, shut)
    | inr (k, live) ↦ ground (arith, live)
  ]

  queue-read_endpoint :
      (d : List ℕ) (q : List (List ℕ)) (base cur now callback : ℕ) (stop : Bool) (room : ℕ)
      (e : Endpoint K) (tm : TimeManager)
      → ((k : K) → (kcp.input d k).1 ≡ false)
      → e.recv_queue ≡ d ∷ q
      → (read_endpoint kcp base cur now callback stop room e tm).endpoint.recv_queue ≡ d ∷ q
  unfolding read_endpoint
  queue-read_endpoint d q base cur now callback true room e tm h at =
      queue-update_endpoint d q (waiting kcp true e) h at
  queue-read_endpoint d q base cur now callback false room e tm h at =
      let e' = update_endpoint kcp (waiting kcp true e) in
      let same : e'.recv_queue ≡ d ∷ q = queue-update_endpoint d q (waiting kcp true e) h at in
      elim (Option-cases e'.ikcp) [
        | inl shut ↦ ground (arith, shut, same)
        | inr (k, live) ↦
            let k' = (kcp.recv room k).0 in
            let left = queue-set_timer base cur now callback (record e' { ikcp = some k' }) tm in
            elim (Option-cases (kcp.recv room k).1) [
              | inl out ↦ ground (arith, live, same, out, left)
              | inr (bytes, got) ↦ ground (arith, live, same, got, left)
            ]
      ]

  queue-write_message :
      (base cur now callback : ℕ) (stop : Bool) (bytes : List ℕ) (e : Endpoint K) (tm : TimeManager)
      → (write_message kcp base cur now callback stop bytes e tm).endpoint.recv_queue ≡ e.recv_queue
  unfolding write_message
  queue-write_message base cur now callback true bytes e tm = refl
  queue-write_message base cur now callback false bytes e tm = elim (Option-cases e.ikcp) [
    | inl shut ↦ ground (arith, shut)
    | inr (k, live) ↦
        let k' = (kcp.send bytes k).0 in
        let left = queue-set_timer base cur now callback (record e { ikcp = some k' }) tm in
        elim (Bool-cases (kcp.send bytes k).1) [
          | inl took ↦ ground (arith, live, took, left)
          | inr not_taken ↦ ground (arith, live, not_taken, left)
        ]
  ]

  -- A datagram at the head of the queue that ikcp refuses in every state, as one shorter than its
  -- header is, stays there through all arrivals, ticks, reads and writes, and everything that arrives
  -- stays behind it.
  pub queue-run_events :
      (d : List ℕ) (q : List (List ℕ)) (evs : List Event) (e : Endpoint K) (tm : TimeManager)
      → ((k : K) → (kcp.input d k).1 ≡ false)
      → e.recv_queue ≡ d ∷ q
      → (run_events evs (e, tm)).0.recv_queue ≡ (d ∷ q) ++ arrivals evs
  unfolding run_events event_step queue_datagram on_tick
  queue-run_events d q [] e tm h at = at ∙ sym (append-nil (d ∷ q))
  queue-run_events d q (arrives now bytes ∷ evs) e tm h at =
      queue-run_events d (q ++ bytes ∷ []) evs (queue_datagram now bytes e) tm h
        (ap (λ z. z ++ bytes ∷ []) at)
      ∙ append_assoc (d ∷ q) (bytes ∷ []) (arrivals evs)
  queue-run_events d q (ticks base upd cur now callback ∷ evs) e tm h at =
      let s = on_tick kcp base upd cur now callback e tm in
      queue-run_events d q evs s.0 s.1 h (
        queue-set_timer base cur now callback (update_ikcp kcp base upd (update_endpoint kcp e)) tm
        ∙ queue-update_ikcp base upd (update_endpoint kcp e)
        ∙ queue-update_endpoint d q e h at)
  queue-run_events d q (reads base cur now callback stop room ∷ evs) e tm h at =
      let c = read_endpoint kcp base cur now callback stop room e tm in
      queue-run_events d q evs c.endpoint c.timers h
        (queue-read_endpoint d q base cur now callback stop room e tm h at)
  queue-run_events d q (writes base cur now callback stop bytes ∷ evs) e tm h at =
      let c = write_message kcp base cur now callback stop bytes e tm in
      queue-run_events d q evs c.endpoint c.timers h
        (queue-write_message base cur now callback stop bytes e tm ∙ at)
