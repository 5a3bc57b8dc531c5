-- ===== src/Tcp/Framing.antt =====
-- What one side writes in packets the other side reads in packets.
use p2p_live.Prelude.{
  ℕ, suc, ◌%◌, ◌<◌, ◌≡◌, refl, sym, ap, ◌∙◌, arith, some, none, Option, List, [], ◌∷◌, ◌++◌, length,
  take, drop, All, u32_mod, length-append, take-length, drop-length, zero,
}
use mathlib.Core.List.{append_assoc, append-nil}
use p2p_live.Endian.{to_memory, of_memory}
use p2p_live.Endian.Layout.{cast_struct-cast_struct, length-cast_struct, to_memory-Bytes}
use p2p_live.Tcp.{Pieces, head_members, head_bytes, awrite_packet, head_size, aread_packet}
use p2p_live.Tcp.Pieces.{
  joined, skip, StartsWhole, joined-skip, aread_packet_content_lem, aread_packet_head_lem,
}

of_memory-to_memory : (v : ℕ) → v < u32_mod → of_memory (to_memory 4 v) ≡ v
of_memory-to_memory v h = omega arith

length-head_bytes : (n : ℕ) → length (head_bytes n) ≡ 4
unfolding head_bytes
length-head_bytes n = length-cast_struct head_members (to_memory 4 (n % u32_mod)) (omega arith)

head_size-head_bytes : (n : ℕ) → n < u32_mod → head_size (head_bytes n) ≡ n
unfolding head_bytes
head_size-head_bytes n h =
    ap of_memory (
      cast_struct-cast_struct head_members (to_memory 4 (n % u32_mod)) (omega arith)
        (to_memory-Bytes 4 (n % u32_mod)))
    ∙ of_memory-to_memory (n % u32_mod) (omega arith)
    ∙ omega arith

take_front : (n : ℕ) (xs ys : List ℕ) → length xs ≡ n → take n (xs ++ ys) ≡ xs
take_front n xs ys e = ap (λ k. take k (xs ++ ys)) (sym e) ∙ take-length xs ys

drop_front : (n : ℕ) (xs ys : List ℕ) → length xs ≡ n → drop n (xs ++ ys) ≡ ys
drop_front n xs ys e = ap (λ k. drop k (xs ++ ys)) (sym e) ∙ drop-length xs ys

-- A packet of less than 4 GiB at the front of what a connection brings, whose head is not split, comes
-- out as it went in, and what follows it is left for the next read.
pub aread_packet-awrite_packet :
    (payload rest : List ℕ) (xs : Pieces)
    → length payload < u32_mod
    → StartsWhole xs
    → joined xs ≡ awrite_packet [] payload ++ rest
    → (aread_packet xs ≡ some (payload, skip (length payload) (skip 4 xs)))
      × (joined (skip (length payload) (skip 4 xs)) ≡ rest)
unfolding aread_packet awrite_packet
aread_packet-awrite_packet payload rest xs h w e =
    let wire = head_bytes (length payload) in
    let n = length payload in
    let shape : joined xs ≡ wire ++ (payload ++ rest) = e ∙ append_assoc wire payload rest in
    let size : head_size (take 4 (joined xs)) ≡ n =
      ap (λ z. head_size (take 4 z)) shape
      ∙ ap head_size (take_front 4 wire (payload ++ rest) (length-head_bytes n))
      ∙ head_size-head_bytes n h in
    let left : joined (skip 4 xs) ≡ payload ++ rest =
      joined-skip 4 xs
      ∙ ap (drop 4) shape
      ∙ drop_front 4 wire (payload ++ rest) (length-head_bytes n) in
    let content =
      aread_packet_content_lem n (skip 4 xs)
        (omega (arith, ap length left, length-append payload rest)) in
    let came : take n (joined (skip 4 xs)) ≡ payload =
      ap (take n) left ∙ take_front n payload rest refl in
    (
      ground (arith, aread_packet_head_lem xs w, size, content, came),
      joined-skip n (skip 4 xs) ∙ ap (drop n) left ∙ drop_front n payload rest refl,
    )

-- `k` reads in a row.
unfoldable pub aread_packets : ℕ → Pieces → Option (List (List ℕ) × Pieces)
aread_packets zero xs = some ([], xs)
aread_packets (suc k) xs = elim (aread_packet xs) [
  | none ↦ none
  | some (p, rest) ↦ elim (aread_packets k rest) [ none ↦ none | some (ps, r) ↦ some (p ∷ ps, r) ]
]

unfoldable pub awrite_packets : List ℕ → List (List ℕ) → List ℕ
awrite_packets stream [] = stream
awrite_packets stream (p ∷ ps) = awrite_packets (awrite_packet stream p) ps

awrite_packets_start :
    (s : List ℕ) (ps : List (List ℕ)) → awrite_packets s ps ≡ s ++ awrite_packets [] ps
unfolding awrite_packets awrite_packet
awrite_packets_start s [] = sym (append-nil s)
awrite_packets_start s (p ∷ ps) =
    let packet = head_bytes (length p) ++ p in
    awrite_packets_start (s ++ packet) ps
    ∙ append_assoc s packet (awrite_packets [] ps)
    ∙ ap (λ t. s ++ t) (sym (awrite_packets_start packet ps))

-- No head of the packets is split: where a packet starts, the first piece that is not used up has at
-- least the four bytes of the head. The payloads may be split anywhere.
abbrev pub HeadsWhole : List (List ℕ) → Pieces → Type 0
HeadsWhole [] xs = Unit {0}
HeadsWhole (p ∷ ps) xs = StartsWhole xs × HeadsWhole ps (skip (length p) (skip 4 xs))

-- Packets of less than 4 GiB each that a connection brings in pieces, none of whose heads is split,
-- are read back in order, and no byte is left over.
pub aread_packets-awrite_packets :
    (ps : List (List ℕ)) (xs : Pieces)
    → All (λ p. length p < u32_mod) ps
    → joined xs ≡ awrite_packets [] ps
    → HeadsWhole ps xs
    → (left : Pieces) × (aread_packets (length ps) xs ≡ some (ps, left)) × (joined left ≡ [])
unfolding aread_packets awrite_packets
aread_packets-awrite_packets [] xs h e w = (xs, refl, e)
aread_packets-awrite_packets (p ∷ ps) xs h e w =
    let (first, rest) =
      aread_packet-awrite_packet p (awrite_packets [] ps) xs h.0 w.0
        (e ∙ awrite_packets_start (awrite_packet [] p) ps) in
    let (left, others, empty) =
      aread_packets-awrite_packets ps (skip (length p) (skip 4 xs)) h.1 rest w.1 in
    (left, ground (arith, first, others), empty)
