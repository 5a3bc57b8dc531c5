-- ===== src/Peer/Delivery.antt =====
-- One package of a fragment at the receiver: what it does to the cache, and what a run of packages
-- delivers.
use p2p_live.Prelude.{
  ℕ, ◌+◌, ◌-◌, ◌≤◌, ◌<◌, ◌≡◌, sym, ap, ◌∙◌, arith, true, false, none, some, List, [], ◌∷◌, ◌++◌,
  length, take, drop, min, insert, nat_eq, lookup-insert, beq_refl, length-append, length-take,
  length-drop, take-length, take_all,
}
use mathlib.Core.List.{append_assoc}
use p2p_live.Buffer.Memory.{splice}
use p2p_live.Peer.{
  PeerPackage, fragment_rsp, fragment_rsp_rest, Cache, ChannelInfo, PeerInfo, Handlers, PeerEffect,
  fragment_received,
}
use p2p_live.Peer.Receiving.{
  fill, deliver, receive_fragment, receive_rest, receive, receive_all, channel_at,
}

pub length-splice :
    (b : List ℕ) (w : ℕ) (c : List ℕ) → w + length c ≤ length b → length (splice b w c) ≡ length b
length-splice b w c h = omega (
  arith,
  length-append (take w b) (c ++ drop (w + length c) b),
  length-append c (drop (w + length c) b),
  length-take w b,
  length-drop (w + length c) b,
)

pub take-splice :
    (b : List ℕ) (w : ℕ) (c : List ℕ)
    → w + length c ≤ length b
    → take (w + length c) (splice b w c) ≡ take w b ++ c
take-splice b w c h =
    let front = take w b ++ c in
    let tail = drop (w + length c) b in
    let size : length front ≡ w + length c =
      omega (arith, length-append (take w b) c, length-take w b) in
    ap (λ k. take k (splice b w c)) (sym size)
    ∙ ap (λ t. take (length front) t) (sym (append_assoc (take w b) c tail))
    ∙ take-length front tail

pub fill_lem :
    (content : List ℕ) (k : Cache)
    → k.walked + length content ≤ length k.bytes
    → fill content k
      ≡ record { bytes = splice k.bytes k.walked content; walked = k.walked + length content }
unfolding fill
fill_lem content k h =
    let e : min (length k.bytes - k.walked) (length content) ≡ length content = omega arith in
    ground (arith, e, take_all (length content) content (omega arith))

pub receive_rest_goes_on :
    (h : Handlers) (content : List ℕ) (k : Cache) (ch : ChannelInfo)
    → ch.fragment_recv_buffer_cache ≡ some k
    → k.walked + length content < length k.bytes
    → receive_rest h false content ch
      ≡ (record ch { fragment_recv_buffer_cache = some (fill content k) }, [])
unfolding receive_rest deliver
receive_rest_goes_on h content k ch e lt =
    ground (
      arith,
      fill_lem content k (omega arith),
      length-splice k.bytes k.walked content (omega arith),
    )

pub receive_rest_ends :
    (h : Handlers) (content : List ℕ) (k : Cache) (ch : ChannelInfo)
    → h.fragment_recv_handler ≡ true
    → ch.fragment_recv_buffer_cache ≡ some k
    → k.walked + length content ≡ length k.bytes
    → receive_rest h false content ch ≡ (
      record ch { fragment_recv_buffer_cache = none },
      fragment_received ch.fragment_recv_id (take k.walked k.bytes ++ content) ∷ [],
    )
unfolding receive_rest deliver
receive_rest_ends h content k ch on e full =
    let room : k.walked + length content ≤ length k.bytes = omega arith in
    let size = length-splice k.bytes k.walked content room in
    let whole : splice k.bytes k.walked content ≡ take k.walked k.bytes ++ content =
      sym (
        take_all (k.walked + length content) (splice k.bytes k.walked content)
          (omega (arith, size)))
      ∙ take-splice k.bytes k.walked content room in
    ground (arith, fill_lem content k room, size, whole)

pub channel_at-insert :
    (c : ℕ) (ch : ChannelInfo) (p : PeerInfo)
    → channel_at c (record p { channel = insert c ch p.channel }) ≡ ch
channel_at-insert c ch p = ground (arith, lookup-insert c c ch p.channel, beq_refl c)

-- The packages go out, and once they have come in the fragment is delivered and the cache is empty.
pub record Delivered (raw : ℕ → List ℕ) (now sid : ℕ) (h : Handlers) (c fid : ℕ) (content : List ℕ)
    (p : PeerInfo) (pkgs : List PeerPackage) : Type 0 where
  pub effects : (receive_all raw now sid h c pkgs p).1 ≡ fragment_received fid content ∷ []
  pub empties :
      (channel_at c (receive_all raw now sid h c pkgs p).0).fragment_recv_buffer_cache ≡ none

module _ (raw : ℕ → List ℕ) (now sid : ℕ) (h : Handlers) (c : ℕ) where
  pub Delivered-last :
      (fid : ℕ) (whole : List ℕ) (p : PeerInfo) (ch : ChannelInfo) (pkg : PeerPackage)
      → receive raw now sid h c pkg p
        ≡ (record p { channel = insert c ch p.channel }, fragment_received fid whole ∷ [])
      → ch.fragment_recv_buffer_cache ≡ none
      → Delivered raw now sid h c fid whole p (pkg ∷ [])
  unfolding receive_all
  Delivered-last fid whole p ch pkg e free =
      let at = channel_at-insert c ch p in
      record { effects = ground (arith, e); empties = ground (arith, e, at) }

  pub Delivered-step :
      (fid : ℕ) (whole : List ℕ) (p p' : PeerInfo) (pkg : PeerPackage) (pkgs : List PeerPackage)
      → receive raw now sid h c pkg p ≡ (p', [])
      → Delivered raw now sid h c fid whole p' pkgs
      → Delivered raw now sid h c fid whole p (pkg ∷ pkgs)
  unfolding receive_all
  Delivered-step fid whole p p' pkg pkgs e d =
      let d0 = d.effects in
      let d1 = d.empties in
      record { effects = ground (arith, e, d0); empties = ground (arith, e, d1) }

  pub receive-rest :
      (content : List ℕ) (p : PeerInfo) (ch : ChannelInfo) (es : List PeerEffect)
      → receive_rest h false content (channel_at c p) ≡ (ch, es)
      → receive raw now sid h c (fragment_rsp_rest false content) p
        ≡ (record p { channel = insert c ch p.channel }, es)
  unfolding receive
  receive-rest content p ch es e = ground (arith, e)

  -- The head opens an empty cache, and then fills it as the packages after it do.
  pub receive-first :
      (fid len : ℕ) (content : List ℕ) (p : PeerInfo) (ch : ChannelInfo) (es : List PeerEffect)
      → (channel_at c p).fragment_recv_buffer_cache ≡ none
      → receive_rest h false content (record (channel_at c p) {
        fragment_recv_id = fid;
        fragment_recv_buffer_cache = some (record { bytes = raw len; walked = 0 });
      })
        ≡ (ch, es)
      → receive raw now sid h c (fragment_rsp fid len content) p
        ≡ (record p { channel = insert c ch p.channel }, es)
  unfolding receive receive_fragment receive_rest
  receive-first fid len content p ch es free e = ground (arith, e, free)
