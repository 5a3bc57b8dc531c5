-- ===== src/Rudp/Demultiplexing.antt =====
-- `rudp_server_main`: which endpoint a datagram reaches.
use p2p_live.Prelude.{
  ℕ, ◌≡◌, refl, sym, ap, ap₂, ◌∙◌, arith, Bool, true, false, Option, none, some, List, [], ◌∷◌,
  ◌++◌, if◌then◌else◌, ==_iff, lookup, nat_eq, and_then, inl, inr, Bool-cases, Option-cases,
  none-ne-some, some_eq,
}
use mathlib.Core.List.{append_assoc, append-nil}
use p2p_live.SocketAddr.{SocketAddr, addr_eq_inst, addr_eq_iff}
use p2p_live.Rudp.{Ikcp, Endpoint, UserMap}
use p2p_live.Rudp.Endpoints.{entry, write_endpoint}
use p2p_live.Rudp.Directory.{same_key, IsUserMap, entry-write_endpoint, write_endpoint-IsUserMap}
use p2p_live.Rudp.Traffic.{
  UnknownHandler, target_of, check_unknown, queue_datagram, queue_at, server_turn,
}

-- A datagram: the time, the address it came from, its bytes.
pub record Datagram : Type 0 where
  pub at : ℕ
  pub from : SocketAddr
  pub bytes : List ℕ

module _ {K : Type 0} (kcp : Ikcp K) where
  -- The turns of `rudp_server_main` for datagrams one after the other.
  unfoldable pub serve : Option (UnknownHandler K) → List Datagram → UserMap K → Option (UserMap K)
  unfolding server_turn
  serve handler [] m = some m
  serve handler (d ∷ ds) m =
      and_then (server_turn kcp handler d.at d.from d.bytes m) (serve handler ds)

  -- Whether a datagram is for an address and channel.
  abbrev pub is_for : SocketAddr → ℕ → Datagram → Bool
  is_for a c d = same_key d.from (kcp.getconv d.bytes) a c

  abbrev pub addressed_to : SocketAddr → ℕ → List Datagram → List (List ℕ)
  addressed_to a c [] = []
  addressed_to a c (d ∷ ds) =
      let rest = addressed_to a c ds in if is_for a c d then d.bytes ∷ rest else rest

  -- A handler leaves the open endpoint at an address and channel alone, and the maps maps.
  pub record Leaves (h : UnknownHandler K) (a : SocketAddr) (c : ℕ) : Type 0 where
    pub stays :
        (b : SocketAddr) (m : UserMap K) (e : Endpoint K) (k : K)
        → IsUserMap m
        → entry a c m ≡ some e
        → e.ikcp ≡ some k
        → entry a c (h b m).0 ≡ some e
    pub valid : (b : SocketAddr) (m : UserMap K) → IsUserMap m → IsUserMap (h b m).0

  entry_none : (a : SocketAddr) (c : ℕ) (m : UserMap K) → lookup a m ≡ none → entry a c m ≡ none
  unfolding entry
  entry_none a c m h = rw h refl

  entry-is_for :
      (a : SocketAddr) (c : ℕ) (d : Datagram) (m : UserMap K)
      → is_for a c d ≡ true
      → entry d.from (kcp.getconv d.bytes) m ≡ entry a c m
  entry-is_for a c d m h =
      let one : d.from ≡ a = (addr_eq_iff d.from a).0 (ground (arith, h)) in
      let two : kcp.getconv d.bytes ≡ c = (==_iff (kcp.getconv d.bytes) c).0 (ground (arith, h)) in
      ap₂ (λ x y. entry x y m) one two

  abbrev after : SocketAddr → ℕ → Datagram → Endpoint K → Endpoint K
  after a c d e = if is_for a c d then queue_datagram d.at d.bytes e else e

  -- Of a datagram that is not queued, nothing is seen at an endpoint that is there.
  not_for :
      (a : SocketAddr) (c : ℕ) (d : Datagram) (e : Endpoint K) (m : UserMap K)
      → entry a c m ≡ some e
      → entry d.from (kcp.getconv d.bytes) m ≡ none
      → is_for a c d ≡ false
  not_for a c d e m there out = elim (Bool-cases (is_for a c d)) [
    | inl same ↦ absurd (none-ne-some (sym out ∙ entry-is_for a c d m same ∙ there))
    | inr other ↦ other
  ]

  entry-queue_at :
      (a : SocketAddr) (c : ℕ) (d : Datagram) (e : Endpoint K) (m : UserMap K)
      → IsUserMap m
      → entry a c m ≡ some e
      → (m' : UserMap K) × (queue_at d.at d.from
            (kcp.getconv d.bytes)
            d.bytes
            (m, target_of (entry d.from (kcp.getconv d.bytes) m))
          ≡ some m')
        × (entry a c m' ≡ some (after a c d e))
        × IsUserMap m'
  entry-queue_at a c d e m v there =
      let conv = kcp.getconv d.bytes in
      elim (Option-cases (entry d.from conv m)) [
        | inl out ↦ (m, rw out refl, rw (not_for a c d e m there out) there, v)
        | inr (e1, at) ↦
            let m' = write_endpoint d.from conv (queue_datagram d.at d.bytes e1) m in
            let written = entry-write_endpoint d.from a conv c (queue_datagram d.at d.bytes e1) m in
            (
              m',
              rw at refl,
              written ∙ (elim (Bool-cases (is_for a c d)) [
                | inl same ↦
                    let one : e1 ≡ e = some_eq (sym at ∙ entry-is_for a c d m same ∙ there) in
                    rw same (ap (λ x. some (queue_datagram d.at d.bytes x)) one)
                | inr other ↦ rw other there
              ]),
              write_endpoint-IsUserMap d.from conv (queue_datagram d.at d.bytes e1) m v,
            )
      ]

  entry-server_turn :
      (h : UnknownHandler K) (a : SocketAddr) (c : ℕ) (d : Datagram) (e : Endpoint K) (k : K)
      (m : UserMap K)
      → Leaves h a c
      → IsUserMap m
      → entry a c m ≡ some e
      → e.ikcp ≡ some k
      → (m' : UserMap K) × (server_turn kcp (some h) d.at d.from d.bytes m ≡ some m')
        × (entry a c m' ≡ some (after a c d e))
        × IsUserMap m'
  unfolding server_turn check_unknown
  entry-server_turn h a c d e k m leaves v there live = elim (Option-cases (lookup d.from m)) [
    | inl out ↦
        let m1 = (h d.from m).0 in
        let still : entry a c m1 ≡ some e = leaves.stays d.from m e k v there live in
        let v1 = leaves.valid d.from m v in
        elim (Bool-cases (h d.from m).1) [
          | inl take ↦
              let (m', done, at, v') = entry-queue_at a c d e m1 v1 still in
              (m', rw (server_turn, check_unknown, out, take) done, at, v')
          | inr refuse ↦ (
            m1,
            rw (server_turn, check_unknown, out, refuse) refl,
            rw (not_for a c d e m there (entry_none d.from (kcp.getconv d.bytes) m out)) still,
            v1,
          )
        ]
    | inr (inner, known) ↦
        let (m', done, at, v') = entry-queue_at a c d e m v there in
        (m', rw (server_turn, check_unknown, known) done, at, v')
  ]

  queue-after :
      (a : SocketAddr) (c : ℕ) (d : Datagram) (ds : List Datagram) (e : Endpoint K)
      → (after a c d e).recv_queue ++ addressed_to a c ds
        ≡ e.recv_queue ++ addressed_to a c (d ∷ ds)
  unfolding queue_datagram
  queue-after a c d ds e = elim (Bool-cases (is_for a c d)) [
    | inl same ↦ rw same (append_assoc e.recv_queue (d.bytes ∷ []) (addressed_to a c ds))
    | inr other ↦ rw other refl
  ]

  ikcp-after :
      (a : SocketAddr) (c : ℕ) (d : Datagram) (e : Endpoint K) → (after a c d e).ikcp ≡ e.ikcp
  unfolding queue_datagram
  ikcp-after a c d e = elim (Bool-cases (is_for a c d)) [
    | inl same ↦ rw same refl
    | inr other ↦ rw other refl
  ]

  -- For an open endpoint, and a handler of unknown addresses that leaves it alone: any datagrams are
  -- served without a fault, and then that endpoint's queue is the one before followed by
  -- the datagrams from its address that carry its channel, in the order of arrival; its ikcp is as it was.
  pub queue-serve :
      (h : UnknownHandler K) (a : SocketAddr) (c : ℕ) (ds : List Datagram) (e : Endpoint K) (k : K)
      (m : UserMap K)
      → Leaves h a c
      → IsUserMap m
      → entry a c m ≡ some e
      → e.ikcp ≡ some k
      → (m' : UserMap K) × (e' : Endpoint K) × (serve (some h) ds m ≡ some m')
        × (entry a c m' ≡ some e')
        × (e'.recv_queue ≡ e.recv_queue ++ addressed_to a c ds)
        × (e'.ikcp ≡ e.ikcp)
  unfolding serve queue_datagram
  queue-serve h a c [] e k m leaves v there live =
      (m, e, refl, there, sym (append-nil e.recv_queue), refl)
  queue-serve h a c (d ∷ ds) e k m leaves v there live =
      let (m1, done, at, v1) = entry-server_turn h a c d e k m leaves v there live in
      let (m', e', served, still, queue, same) =
        queue-serve h a c ds (after a c d e) k m1 leaves v1 at (ikcp-after a c d e ∙ live) in
      (
        m',
        e',
        ap (λ o. and_then o (serve (some h) ds)) done ∙ served,
        still,
        queue ∙ queue-after a c d ds e,
        same ∙ ikcp-after a c d e,
      )
