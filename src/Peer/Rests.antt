-- ===== src/Peer/Rests.antt =====
-- The loop of `send_fragments`: what it writes after the head reaches the receiver.
use p2p_live.Prelude.{
  ℕ, zero, suc, ◌+◌, ◌≤◌, ◌<◌, ◌≡◌, refl, sym, ap, ap₂, subst, ◌∙◌, arith, true, false, some, List,
  [], ◌∷◌, ◌++◌, Bool-cases, inl, inr, leb, leb→le, length, take, drop, min, insert, nat_eq,
  length-take, length-drop, take-append-drop, take_all, drop_all,
}
use mathlib.Core.List.{append_assoc}
use p2p_live.Peer.{PeerPackage, fragment_rsp_rest, Cache, PeerInfo, Handlers}
use p2p_live.Peer.Sending.{send_rest, push_front}
use p2p_live.Peer.Receiving.{fill, channel_at}
use p2p_live.Peer.Delivery.{
  take-splice, fill_lem, length-splice, receive_rest_goes_on, receive_rest_ends, channel_at-insert,
  Delivered, Delivered-last, Delivered-step, receive-rest,
}

module _ (size : PeerPackage → ℕ) (mtu base : ℕ) where
  pub send_rest_end :
      (fuel : ℕ)
      → send_rest size (suc fuel) mtu base [] ≡ some (record { packages = []; complete = true })
  unfolding send_rest
  send_rest_end fuel = ground arith

  -- A round of the loop that writes a package.
  send_rest_step :
      (fuel : ℕ) (content : List ℕ)
      → 0 < length content
      → size (fragment_rsp_rest false (take (min (length content) base) content)) ≤ mtu
      → send_rest size (suc fuel) mtu base content
        ≡ push_front
            (fragment_rsp_rest false (take (min (length content) base) content))
            (send_rest size fuel mtu base (drop (min (length content) base) content))
  unfolding send_rest
  send_rest_step fuel content some_left fit = ground arith

module _ (raw : ℕ → List ℕ) (now sid : ℕ) (h : Handlers) (c : ℕ)
    (on : h.fragment_recv_handler ≡ true) (size : PeerPackage → ℕ) (mtu base : ℕ)
    (positive : 0 < base)
    (fits : (content : List ℕ)
      → length content ≤ base
      → size (fragment_rsp_rest false content) ≤ mtu) where
  unfoldable pub Sending : ℕ → List ℕ → PeerInfo → Cache → Type 0
  Sending fuel content p k =
      (pkgs : List PeerPackage) × (send_rest size fuel mtu base content
        ≡ some (record { packages = pkgs; complete = true }))
      × Delivered raw now sid h c (channel_at c p).fragment_recv_id
          (take k.walked k.bytes ++ content) p pkgs

  send_last :
      (fuel : ℕ) (content : List ℕ) (p : PeerInfo) (k : Cache)
      → length content ≤ base
      → 0 < fuel
      → 0 < length content
      → (channel_at c p).fragment_recv_buffer_cache ≡ some k
      → k.walked + length content ≡ length k.bytes
      → Sending (suc fuel) content p k
  unfolding Sending
  send_last zero content p k small enough some_left e full = absurd (omega arith)
  send_last (suc fuel) content p k small enough some_left e full =
      let len : min (length content) base ≡ length content = omega arith in
      let whole : take (min (length content) base) content ≡ content =
        take_all (min (length content) base) content (omega arith) in
      let none_left : drop (min (length content) base) content ≡ [] =
        drop_all (min (length content) base) content (omega arith) in
      let pkg = fragment_rsp_rest false content in
      let out : send_rest size (suc (suc fuel)) mtu base content
          ≡ some (record { packages = pkg ∷ []; complete = true }) =
        send_rest_step size mtu base (suc fuel) content some_left
          (subst (λ z. size (fragment_rsp_rest false z) ≤ mtu) (sym whole) (fits content small))
        ∙ ap₂ (λ x y. push_front (fragment_rsp_rest false x) (send_rest size (suc fuel) mtu base y))
            whole none_left
        ∙ ap (push_front pkg) (send_rest_end size mtu base fuel) in
      let last = receive_rest_ends h content k (channel_at c p) on e full in
      (
        pkg ∷ [],
        out,
        Delivered-last raw now sid h c _ _ p _ pkg (receive-rest raw now sid h c content p _ _ last)
            refl,
      )

  send_more :
      (fuel : ℕ) (content : List ℕ) (p : PeerInfo) (k : Cache)
      → base < length content
      → (channel_at c p).fragment_recv_buffer_cache ≡ some k
      → k.walked + length content ≡ length k.bytes
      → ((p' : PeerInfo) (k' : Cache)
          → (channel_at c p').fragment_recv_buffer_cache ≡ some k'
          → k'.walked + length (drop base content) ≡ length k'.bytes
          → Sending fuel (drop base content) p' k')
      → Sending (suc fuel) content p k
  unfolding Sending
  send_more fuel content p k big e full more =
      let head = take base content in
      let len : min (length content) base ≡ base = omega arith in
      let size_head : length head ≡ base = omega (arith, length-take base content) in
      let ch = record (channel_at c p) { fragment_recv_buffer_cache = some (fill head k) } in
      let p' = record p { channel = insert c ch p.channel } in
      let at : channel_at c p' ≡ ch = channel_at-insert c ch p in
      let filled = fill_lem head k (omega arith) in
      let kept = length-splice k.bytes k.walked head (omega arith) in
      let cached : (channel_at c p').fragment_recv_buffer_cache ≡ some (fill head k) =
        ap (λ z. z.fragment_recv_buffer_cache) at in
      let room : (fill head k).walked + length (drop base content) ≡ length (fill head k).bytes =
        ground (arith, filled, kept, length-drop base content) in
      let (pkgs, sent, got) = more p' (fill head k) cached room in
      let out : send_rest size (suc fuel) mtu base content
          ≡ some (record { packages = fragment_rsp_rest false head ∷ pkgs; complete = true }) =
        send_rest_step size mtu base fuel content (omega arith) (
          subst (λ z. size (fragment_rsp_rest false (take z content)) ≤ mtu) (sym len)
            (fits head (omega arith)))
        ∙ ap
            (λ z.
              push_front (fragment_rsp_rest false (take z content))
                (send_rest size fuel mtu base (drop z content)))
            len
        ∙ ap (push_front (fragment_rsp_rest false head)) sent in
      let on_way = receive_rest_goes_on h head k (channel_at c p) e (omega arith) in
      let same : take (fill head k).walked (fill head k).bytes ++ drop base content
          ≡ take k.walked k.bytes ++ content =
        ap (λ z. take z.walked z.bytes ++ drop base content) filled
        ∙ ap (λ z. z ++ drop base content) (take-splice k.bytes k.walked head (omega arith))
        ∙ append_assoc (take k.walked k.bytes) head (drop base content)
        ∙ ap (λ z. take k.walked k.bytes ++ z) (take-append-drop base content) in
      let name : (channel_at c p').fragment_recv_id ≡ (channel_at c p).fragment_recv_id =
        ap (λ z. z.fragment_recv_id) at in
      let moved : Delivered raw now sid h c (channel_at c p).fragment_recv_id
          (take k.walked k.bytes ++ content) p' pkgs =
        subst (λ z. Delivered raw now sid h c z (take k.walked k.bytes ++ content) p' pkgs) name
          (subst (λ z. Delivered raw now sid h c (channel_at c p').fragment_recv_id z p' pkgs) same
            got) in
      (
        fragment_rsp_rest false head ∷ pkgs,
        out,
        Delivered-step raw now sid h c _ _ p p' _ pkgs
            (receive-rest raw now sid h c head p _ _ on_way) moved,
      )

  pub send_rest-Sending :
      (fuel : ℕ) (content : List ℕ) (p : PeerInfo) (k : Cache)
      → length content < fuel
      → 0 < length content
      → (channel_at c p).fragment_recv_buffer_cache ≡ some k
      → k.walked + length content ≡ length k.bytes
      → Sending fuel content p k
  send_rest-Sending zero content p k enough some_left e full = absurd (omega arith)
  send_rest-Sending (suc fuel) content p k enough some_left e full =
      elim (Bool-cases (leb (length content) base)) [
        | inl small ↦
            send_last fuel content p k (leb→le (length content) base small) (omega arith) some_left
              e full
        | inr large ↦
            let big : base < length content = ground arith in
            send_more fuel content p k big e full (λ p' k' e' full'.
              let short = length-drop base content in
              send_rest-Sending fuel (drop base content) p' k' (omega arith) (omega arith) e' full')
      ]
