-- ===== src/Peer/Fragments.antt =====
-- What `send_fragments` cuts, the receiver puts together.
use p2p_live.Prelude.{
  ℕ, suc, ◌+◌, ◌≤◌, ◌<◌, ◌≡◌, refl, sym, ap, ap₂, subst, ◌∙◌, arith, true, false, none, some, List,
  [], ◌∷◌, ◌++◌, Bool-cases, inl, inr, leb, leb→le, length, take, drop, min, insert, nat_eq,
  length-take, length-drop, take-append-drop, take_all, drop_all,
}
use p2p_live.Peer.{
  PeerPackage, fragment_rsp, fragment_rsp_rest, Cache, ChannelInfo, PeerInfo, Handlers,
}
use p2p_live.Peer.Sending.{base_len, send_rest, send_fragments, push_front}
use p2p_live.Peer.Receiving.{fill, channel_at}
use p2p_live.Peer.Delivery.{
  take-splice, fill_lem, length-splice, receive_rest_goes_on, receive_rest_ends, channel_at-insert,
  Delivered, Delivered-last, Delivered-step, receive-first,
}
use p2p_live.Peer.Rests.{send_rest_end, Sending, send_rest-Sending}

-- What protobuf says of sizes: data costs its length and at most 8 bytes of tags and lengths below
-- 16 KiB, and a `FragmentRspRest` has fewer fields than a `FragmentRsp`.
abbrev pub HasOverhead : (PeerPackage → ℕ) → Type 0
HasOverhead size =
    (fid len : ℕ) (content : List ℕ)
    → length content < 16384
    → (size (fragment_rsp fid len content) ≤ size (fragment_rsp fid len []) + 8 + length content)
      × (size (fragment_rsp_rest false content) ≤ size (fragment_rsp fid len content))

base_len_lem :
    (size : PeerPackage → ℕ) (mtu fid len : ℕ)
    → mtu < 16384
    → size (fragment_rsp fid len []) + 8 < mtu
    → base_len size mtu fid len + size (fragment_rsp fid len []) + 8 ≡ mtu
unfolding base_len
base_len_lem size mtu fid len small h = omega arith

abbrev head_of : ℕ → ℕ → List ℕ → PeerPackage
head_of base fid content =
    fragment_rsp fid (length content) (take (min (length content) base) content)

send_fragments_head :
    (size : PeerPackage → ℕ) (mtu fid : ℕ) (content : List ℕ) (base : ℕ)
    → base_len size mtu fid (length content) ≡ base
    → size (head_of base fid content) ≤ mtu
    → send_fragments size mtu fid content
      ≡ push_front (head_of base fid content) (
          send_rest size (suc (length content)) mtu base (drop (min (length content) base) content))
unfolding send_fragments
send_fragments_head size mtu fid content base is fit = rw is (ground arith)

abbrev blank : (ℕ → List ℕ) → ℕ → Cache
blank raw len = record { bytes = raw len; walked = 0 }

abbrev opened : (ℕ → List ℕ) → ℕ → ℕ → ChannelInfo → ChannelInfo
opened raw fid len ch = record ch {
  fragment_recv_id = fid;
  fragment_recv_buffer_cache = some (blank raw len);
}

module _ (raw : ℕ → List ℕ) (now sid : ℕ) (h : Handlers) (c : ℕ)
    (on : h.fragment_recv_handler ≡ true) (news : (n : ℕ) → length (raw n) ≡ n)
    (size : PeerPackage → ℕ) (law : HasOverhead size) (mtu : ℕ) (small : mtu < 16384) where
  -- What `send_fragments` writes and what becomes of it.
  Arrives : ℕ → List ℕ → PeerInfo → Type 0
  Arrives fid content p =
      (pkgs : List PeerPackage) × (send_fragments size mtu fid content
        ≡ some (record { packages = pkgs; complete = true }))
      × Delivered raw now sid h c fid content p pkgs

  module _ (fid : ℕ) (content : List ℕ) (p : PeerInfo) (base : ℕ)
      (is : base_len size mtu fid (length content) ≡ base)
      (fits : (d : List ℕ) → length d ≤ base → size (fragment_rsp fid (length content) d) ≤ mtu)
      (free : (channel_at c p).fragment_recv_buffer_cache ≡ none) where
    Arrives-in_one : length content ≤ base → Arrives fid content p
    unfolding Arrives
    Arrives-in_one le =
        let len : min (length content) base ≡ length content = omega arith in
        let whole : take (min (length content) base) content ≡ content =
          take_all (min (length content) base) content (omega arith) in
        let none_left : drop (min (length content) base) content ≡ [] =
          drop_all (min (length content) base) content (omega arith) in
        let pkg = fragment_rsp fid (length content) content in
        let out : send_fragments size mtu fid content
            ≡ some (record { packages = pkg ∷ []; complete = true }) =
          send_fragments_head size mtu fid content base is (
            subst (λ z. size (fragment_rsp fid (length content) z) ≤ mtu) (sym whole)
              (fits content le))
          ∙ ap₂
              (λ x y.
                push_front (fragment_rsp fid (length content) x)
                  (send_rest size (suc (length content)) mtu base y))
              whole none_left
          ∙ ap (push_front pkg) (send_rest_end size mtu base (length content)) in
        let last =
          receive_rest_ends h content (blank raw (length content))
            (opened raw fid (length content) (channel_at c p)) on refl
            (omega (arith, news (length content))) in
        (
          pkg ∷ [],
          out,
          Delivered-last raw now sid h c fid content p _ pkg
              (receive-first raw now sid h c fid (length content) content p _ _ free last) refl,
        )

    Arrives-in_many :
        0 < base
        → ((d : List ℕ) → length d ≤ base → size (fragment_rsp_rest false d) ≤ mtu)
        → base < length content
        → Arrives fid content p
    unfolding Arrives Sending
    Arrives-in_many positive rests big =
        let head = take base content in
        let len : min (length content) base ≡ base = omega arith in
        let size_head : length head ≡ base = omega (arith, length-take base content) in
        let k = blank raw (length content) in
        let start = opened raw fid (length content) (channel_at c p) in
        let n = news (length content) in
        let ch = record start { fragment_recv_buffer_cache = some (fill head k) } in
        let p' = record p { channel = insert c ch p.channel } in
        let at : channel_at c p' ≡ ch = channel_at-insert c ch p in
        let filled = fill_lem head k (omega arith) in
        let kept = length-splice k.bytes 0 head (omega arith) in
        let short = length-drop base content in
        let cached : (channel_at c p').fragment_recv_buffer_cache ≡ some (fill head k) =
          ap (λ z. z.fragment_recv_buffer_cache) at in
        let room : (fill head k).walked + length (drop base content) ≡ length (fill head k).bytes =
          ground (arith, filled, kept) in
        let (pkgs, sent, got) =
          send_rest-Sending raw now sid h c on size mtu base positive rests (suc (length content))
            (drop base content) p' (fill head k) (omega arith) (omega arith) cached room in
        let out : send_fragments size mtu fid content
            ≡ some (record {
              packages = fragment_rsp fid (length content) head ∷ pkgs;
              complete = true;
            }) =
          send_fragments_head size mtu fid content base is (
            subst (λ z. size (fragment_rsp fid (length content) (take z content)) ≤ mtu) (sym len)
              (fits head (omega arith)))
          ∙ ap
              (λ z.
                push_front (fragment_rsp fid (length content) (take z content))
                  (send_rest size (suc (length content)) mtu base (drop z content)))
              len
          ∙ ap (push_front (fragment_rsp fid (length content) head)) sent in
        let same : take (fill head k).walked (fill head k).bytes ++ drop base content ≡ content =
          ap (λ z. take z.walked z.bytes ++ drop base content) filled
          ∙ ap (λ z. z ++ drop base content) (take-splice k.bytes 0 head (omega arith))
          ∙ take-append-drop base content in
        let name : (channel_at c p').fragment_recv_id ≡ fid = ap (λ z. z.fragment_recv_id) at in
        let moved : Delivered raw now sid h c fid content p' pkgs =
          subst (λ z. Delivered raw now sid h c z content p' pkgs) name
            (subst (λ z. Delivered raw now sid h c (channel_at c p').fragment_recv_id z p' pkgs)
              same got) in
        let on_way = receive_rest_goes_on h head k start refl (omega arith) in
        (
          fragment_rsp fid (length content) head ∷ pkgs,
          out,
          Delivered-step raw now sid h c fid content p p' _ pkgs
              (receive-first raw now sid h c fid (length content) head p ch [] free on_way) moved,
        )

  -- Let the sizes of packages obey the law above, and let `fragment_recv_handler` be set. For an
  -- mtu below 16 KiB with room for the head, 8 more bytes and at least one byte of data, every
  -- fragment goes out whole, and a channel with no fragment under way that receives the packages
  -- in order calls the handler once, with that fragment's number and exactly its bytes, and is
  -- left with an empty cache.
  pub receive_all-send_fragments :
      (fid : ℕ) (content : List ℕ) (p : PeerInfo)
      → size (fragment_rsp fid (length content) []) + 8 < mtu
      → (channel_at c p).fragment_recv_buffer_cache ≡ none
      → (pkgs : List PeerPackage) × (send_fragments size mtu fid content
          ≡ some (record { packages = pkgs; complete = true }))
        × Delivered raw now sid h c fid content p pkgs
  unfolding Arrives
  receive_all-send_fragments fid content p room free =
      let len = length content in
      let base = base_len size mtu fid len in
      let base_is = base_len_lem size mtu fid len small room in
      let fits : (d : List ℕ) → length d ≤ base → size (fragment_rsp fid len d) ≤ mtu =
        λ d le. let k = law fid len d (omega arith) in omega arith in
      let rests : (d : List ℕ) → length d ≤ base → size (fragment_rsp_rest false d) ≤ mtu =
        λ d le. let k = law fid len d (omega arith) in omega (arith, fits d le) in
      elim (Bool-cases (leb len base)) [
        | inl whole ↦ Arrives-in_one fid content p base refl fits free (leb→le len base whole)
        | inr more ↦
            Arrives-in_many fid content p base refl fits free (omega arith) rests (ground arith)
      ]
