-- ===== src/Rudp/Unknown.antt =====
-- A datagram of an unknown address, with the handler that peer.cc gives.
use p2p_live.Prelude.{
  ℕ, ◌≡◌, refl, sym, ap, ◌∙◌, arith, Bool, true, false, none, some, List, ◌∷◌, if◌then◌else◌, ◌==◌,
  ==_iff, lookup, nat_eq, and_then, inl, inr, Bool-cases, Option-cases, none-ne-some,
}
use p2p_live.SocketAddr.{SocketAddr, addr_eq_inst}
use p2p_live.Rudp.{Ikcp, Endpoint, UserMap}
use p2p_live.Rudp.Endpoints.{entry, if_open, find, fresh_endpoint, write_endpoint}
use p2p_live.Rudp.Directory.{IsUserMap, entry-write_endpoint}
use p2p_live.Rudp.Slots.{vacant, view, slot_of, situation, is_vacant, is_closed, is_open}
use p2p_live.Rudp.Traffic.{add_channels, accept_unknown, server_turn, check_unknown, queue_datagram}
use p2p_live.Rudp.Demultiplexing.{Leaves}
use p2p_live.Rudp.Accepting.{
  opened, find-view, new_endpoint, has, key_lem, find-add_channels, find-add_channels_old,
  view-add_channels, add_channels-IsUserMap,
}

module _ {K : Type 0} where
  find-entry :
      (a : SocketAddr) (c : ℕ) (e : Endpoint K) (k : K) (m : UserMap K)
      → entry a c m ≡ some e
      → e.ikcp ≡ some k
      → find a c m ≡ some e
  unfolding find
  find-entry a c e k m at live = ground (arith, at, live)

  entry-find :
      (a : SocketAddr) (c : ℕ) (e : Endpoint K) (m : UserMap K)
      → find a c m ≡ some e
      → entry a c m ≡ some e
  unfolding find
  entry-find a c e m got = elim (Option-cases (entry a c m)) [
    | inl out ↦ absurd (none-ne-some (ap (λ o. and_then o if_open) (sym out) ∙ got))
    | inr (x, at) ↦ elim (Option-cases x.ikcp) [
      | inl shut ↦ ground (arith, at, shut, got)
      | inr (k, live) ↦ ground (arith, at, live, got)
    ]
  ]

  entry-vacant : (a : SocketAddr) (c : ℕ) (m : UserMap K) → view m a c ≡ vacant → entry a c m ≡ none
  entry-vacant a c m h = elim (situation a c m) [
    | is_vacant out gone s ↦ out
    | is_closed x at shut gone s ↦ absurd (cc (sym s ∙ h))
    | is_open x there s ↦ absurd (cc (sym s ∙ h))
  ]

  unknown_vacant :
      (a : SocketAddr) (c : ℕ) (m : UserMap K) → lookup a m ≡ none → view m a c ≡ vacant
  unfolding view entry
  unknown_vacant a c m h = ap (λ o. slot_of (and_then o (lookup c))) h

  find-write_endpoint :
      (a : SocketAddr) (c d : ℕ) (e : Endpoint K) (m : UserMap K)
      → find a d (write_endpoint a c e m) ≡ (if c == d then if_open e else find a d m)
  unfolding find
  find-write_endpoint a c d e m =
      ap (λ o. and_then o if_open) (entry-write_endpoint a a c d e m)
      ∙ (elim (Bool-cases (c == d)) [
        | inl same ↦ rw (key_lem a c d, same) refl
        | inr other ↦ rw (key_lem a c d, other) refl
      ])

module _ {K : Type 0} (kcp : Ikcp K) where
  pub accept_unknown-Leaves :
      (t : ℕ) (channels : List ℕ) (a : SocketAddr) (c : ℕ)
      → Leaves kcp (accept_unknown kcp t channels) a c
  unfolding accept_unknown
  accept_unknown-Leaves t channels a c = record {
    stays = λ b m e k v at live.
        entry-find a c e (add_channels kcp t b (0 ∷ channels) m)
          (find-add_channels_old kcp b a (0 ∷ channels) c t e m v (find-entry a c e k m at live)).0;
    valid = λ b m v. add_channels-IsUserMap kcp b (0 ∷ channels) t m v;
  }

  -- A new endpoint, with the datagram in its queue where it is the one for its channel.
  abbrev pub holds : (now : ℕ) → List ℕ → Bool → Endpoint K → Endpoint K
  holds now bytes true e = queue_datagram now bytes e
  holds now bytes false e = e

  open_holds :
      (now t : ℕ) (bytes : List ℕ) (a : SocketAddr) (c : ℕ)
      → if_open (queue_datagram now bytes (new_endpoint kcp a c t))
        ≡ some (queue_datagram now bytes (new_endpoint kcp a c t))
  unfolding queue_datagram fresh_endpoint
  open_holds now t bytes a c = refl

  -- A datagram of an address that the table does not have, with the handler that a peer gives: the
  -- turn ends without a fault, and then channel 0 and the accepted channels have new endpoints at the
  -- address, which wait for nothing but the datagram at the endpoint of its own channel; the address
  -- has no other endpoint, and a datagram of another channel is dropped.
  pub find-server_turn :
      (t now : ℕ) (channels : List ℕ) (a : SocketAddr) (bytes : List ℕ) (m : UserMap K)
      → IsUserMap m
      → lookup a m ≡ none
      → (m' : UserMap K) × (server_turn kcp (some (accept_unknown kcp t channels)) now a bytes m
          ≡ some m')
        × ((d : ℕ)
            → find a d m' ≡ (
                if has d (0 ∷ channels)
                then some (holds now bytes (kcp.getconv bytes == d) (new_endpoint kcp a d t))
                else none))
  unfolding server_turn check_unknown accept_unknown
  find-server_turn t now channels a bytes m v out =
      let conv = kcp.getconv bytes in
      let cs = 0 ∷ channels in
      let m1 = add_channels kcp t a cs m in
      let free : (d : ℕ) → view m a d ≡ vacant = λ d. unknown_vacant a d m out in
      let made : (d : ℕ)
          → find a d m1 ≡ (if has d cs then some (new_endpoint kcp a d t) else none) =
        λ d. elim (Bool-cases (has d cs)) [
          | inl listed ↦ rw listed (find-add_channels kcp a cs d t m v (free d) listed)
          | inr unlisted ↦
              rw unlisted (
                find-view a d m1 ∙ ap opened (view-add_channels kcp a cs d t m v (free d) unlisted))
        ] in
      elim (Bool-cases (has conv cs)) [
        | inl listed ↦
            let e = new_endpoint kcp a conv t in
            let got : entry a conv m1 ≡ some e =
              entry-find a conv e m1 (made conv ∙ rw listed refl) in
            let e' = queue_datagram now bytes e in
            (
              write_endpoint a conv e' m1,
              rw (server_turn, check_unknown, accept_unknown, out, got) refl,
              λ d. find-write_endpoint a conv d e' m1 ∙ (elim (Bool-cases (conv == d)) [
                | inl same ↦
                    let one : conv ≡ d = (==_iff conv d).0 same in
                    let in_list : has d cs ≡ true = ap (λ x. has x cs) (sym one) ∙ listed in
                    rw (same, in_list)
                      (open_holds now t bytes a conv
                        ∙ ap (λ x. some (queue_datagram now bytes (new_endpoint kcp a x t))) one)
                | inr other ↦ rw other (made d)
              ]),
            )
        | inr unlisted ↦
            let gone : entry a conv m1 ≡ none =
              entry-vacant a conv m1 (view-add_channels kcp a cs conv t m v (free conv) unlisted) in
            (
              m1,
              rw (server_turn, check_unknown, accept_unknown, out, gone) refl,
              λ d. made d ∙ (elim (Bool-cases (conv == d)) [
                | inl same ↦
                    let one : conv ≡ d = (==_iff conv d).0 same in
                    let not_listed : has d cs ≡ false = ap (λ x. has x cs) (sym one) ∙ unlisted in
                    rw (same, not_listed) refl
                | inr other ↦ rw other refl
              ]),
            )
      ]
