-- ===== src/Tcp/Pieces.antt =====
-- Reads of a connection that brings its bytes in pieces.
use p2p_live.Prelude.{
  ℕ, zero, suc, ◌-◌, ◌≤◌, ◌≡◌, refl, sym, arith, some, List, [], ◌∷◌, ◌++◌, if◌then◌else◌, leb,
  length, take, drop, drop_nil, length-append,
}
use p2p_live.Tcp.{Pieces, head_size, aread_packet_content, aread_packet_head}

abbrev pub joined : Pieces → List ℕ
joined [] = []
joined (x ∷ xs) = x ++ joined xs

-- What is left of the pieces after `n` bytes.
unfoldable pub skip : ℕ → Pieces → Pieces
skip n [] = []
skip n (x ∷ xs) =
    let later = skip (n - length x) xs in if leb n (length x) then drop n x ∷ xs else later

-- The first piece that brings anything brings four bytes.
abbrev pub StartsWhole : Pieces → Type 0
StartsWhole [] = ⊥
StartsWhole ([] ∷ xs) = StartsWhole xs
StartsWhole ((y ∷ ys) ∷ xs) = 4 ≤ suc (length ys)

take_append :
    (n : ℕ) (x y : List ℕ)
    → take n (x ++ y) ≡ (if leb n (length x) then take n x else x ++ take (n - length x) y)
take_append zero x y = ground arith
take_append (suc n) [] y = ground arith
take_append (suc n) (a ∷ x) y = ground (arith, take_append n x y)

drop_append :
    (n : ℕ) (x y : List ℕ)
    → drop n (x ++ y) ≡ (if leb n (length x) then drop n x ++ y else drop (n - length x) y)
drop_append zero x y = ground arith
drop_append (suc n) [] y = ground arith
drop_append (suc n) (a ∷ x) y = ground (arith, drop_append n x y)

pub joined-skip : (n : ℕ) (xs : Pieces) → joined (skip n xs) ≡ drop n (joined xs)
unfolding skip
joined-skip n [] = sym (drop_nil n)
joined-skip n (x ∷ xs) = ground (arith, joined-skip (n - length x) xs, drop_append n x (joined xs))

-- The content comes out whole, wherever it was split.
pub aread_packet_content_lem :
    (n : ℕ) (xs : Pieces)
    → n ≤ length (joined xs)
    → aread_packet_content n xs ≡ some (take n (joined xs), skip n xs)
unfolding aread_packet_content skip
aread_packet_content_lem zero [] h = refl
aread_packet_content_lem (suc n) [] h = absurd (omega arith)
aread_packet_content_lem n (x ∷ xs) h = ground (
  arith,
  aread_packet_content_lem (n - length x) xs,
  take_append n x (joined xs),
  length-append x (joined xs),
)

-- A head that is not split is read right.
pub aread_packet_head_lem :
    (xs : Pieces)
    → StartsWhole xs
    → aread_packet_head xs ≡ some (head_size (take 4 (joined xs)), skip 4 xs)
unfolding aread_packet_head skip
aread_packet_head_lem [] h = elim h [ ]
aread_packet_head_lem ([] ∷ xs) h = aread_packet_head_lem xs h
aread_packet_head_lem ((y ∷ ys) ∷ xs) h = ground (arith, h, take_append 4 (y ∷ ys) (joined xs))
