-- ===== src/Endian/Layout.antt =====
-- `cast_struct` member by member.
use mathlib.Core.List.{reverse, reverse-reverse}
use p2p_live.Prelude.{
  ℕ, zero, suc, ◌≤◌, ◌/◌, ◌≡◌, refl, ap, ap₂, ◌∙◌, sym, arith, List, [], ◌∷◌, ◌++◌, length, take,
  drop, length-take, length-drop, length-append, take-length, drop-length, take-append-drop,
}
use p2p_live.Endian.{
  Width, Typelist, size_of, struct_size, cast_word, cast_struct, to_memory, of_memory,
}
use p2p_live.Endian.Swap.{Bytes, cast_word-memory}

pub length-to_memory : (w v : ℕ) → length (to_memory w v) ≡ w
length-to_memory zero v = refl
length-to_memory (suc w) v = ap suc (length-to_memory w (v / 256))

pub to_memory-Bytes : (w v : ℕ) → Bytes (to_memory w v)
to_memory-Bytes zero v = tt
to_memory-Bytes (suc w) v = (omega arith, to_memory-Bytes w (v / 256))

Bytes-take : (n : ℕ) (xs : List ℕ) → Bytes xs → Bytes (take n xs)
Bytes-take zero xs h = tt
Bytes-take (suc n) [] h = tt
Bytes-take (suc n) (x ∷ xs) h = (h.0, Bytes-take n xs h.1)

Bytes-drop : (n : ℕ) (xs : List ℕ) → Bytes xs → Bytes (drop n xs)
Bytes-drop zero xs h = h
Bytes-drop (suc n) [] h = tt
Bytes-drop (suc n) (x ∷ xs) h = Bytes-drop n xs h.1

-- What a struct is on the wire: the bytes of every member in the other order, the members in place.
unfoldable pub mirror : Typelist → List ℕ → List ℕ
mirror [] bytes = bytes
mirror (w ∷ ws) bytes = reverse (take (size_of w) bytes) ++ mirror ws (drop (size_of w) bytes)

module _ (w : Width) (bytes : List ℕ) (fits : size_of w ≤ length bytes) (ok : Bytes bytes) where
  member : List ℕ
  member = to_memory (size_of w) (cast_word w (of_memory (take (size_of w) bytes)))

  member_lem : member ≡ reverse (take (size_of w) bytes)
  unfolding member
  member_lem =
      cast_word-memory w (take (size_of w) bytes) (omega (arith, length-take (size_of w) bytes))
        (Bytes-take (size_of w) bytes ok)

  member_twice : to_memory (size_of w) (cast_word w (of_memory member)) ≡ take (size_of w) bytes
  unfolding member
  member_twice =
      cast_word-memory w member (length-to_memory (size_of w) _) (to_memory-Bytes (size_of w) _)
      ∙ ap reverse member_lem
      ∙ reverse-reverse (take (size_of w) bytes)

-- On bytes that are long enough for the struct, `cast_struct` reverses the bytes of each member
-- where they lie, and changes nothing else.
pub cast_struct-mirror :
    (ws : Typelist) (bytes : List ℕ)
    → struct_size ws ≤ length bytes
    → Bytes bytes
    → cast_struct ws bytes ≡ mirror ws bytes
unfolding cast_struct mirror member
cast_struct-mirror [] bytes h ok = refl
cast_struct-mirror (w ∷ ws) bytes h ok = ap₂ ◌++◌ (member_lem w bytes (omega arith) ok) (
    cast_struct-mirror ws (drop (size_of w) bytes) (omega (arith, length-drop (size_of w) bytes))
      (Bytes-drop (size_of w) bytes ok))

pub length-cast_struct :
    (ws : Typelist) (bytes : List ℕ)
    → struct_size ws ≤ length bytes
    → length (cast_struct ws bytes) ≡ length bytes
unfolding cast_struct
length-cast_struct [] bytes h = refl
length-cast_struct (w ∷ ws) bytes h =
    let m = cast_word w (of_memory (take (size_of w) bytes)) in
    omega (
      arith,
      length-append (to_memory (size_of w) m) (cast_struct ws (drop (size_of w) bytes)),
      length-to_memory (size_of w) m,
      length-drop (size_of w) bytes,
      length-cast_struct ws (drop (size_of w) bytes) (omega (arith, length-drop (size_of w) bytes)),
    )

take_of_length : (n : ℕ) (xs ys : List ℕ) → length xs ≡ n → take n (xs ++ ys) ≡ xs
take_of_length n xs ys e = ap (λ k. take k (xs ++ ys)) (sym e) ∙ take-length xs ys

drop_of_length : (n : ℕ) (xs ys : List ℕ) → length xs ≡ n → drop n (xs ++ ys) ≡ ys
drop_of_length n xs ys e = ap (λ k. drop k (xs ++ ys)) (sym e) ∙ drop-length xs ys

-- On bytes that are long enough for the struct, a second cast undoes the first.
pub cast_struct-cast_struct :
    (ws : Typelist) (bytes : List ℕ)
    → struct_size ws ≤ length bytes
    → Bytes bytes
    → cast_struct ws (cast_struct ws bytes) ≡ bytes
unfolding cast_struct member
cast_struct-cast_struct [] bytes h ok = refl
cast_struct-cast_struct (w ∷ ws) bytes h ok =
    let n = size_of w in
    let rest = cast_struct ws (drop n bytes) in
    let m = to_memory n (cast_word w (of_memory (take n bytes))) in
    let len = length-to_memory n (cast_word w (of_memory (take n bytes))) in
    ap₂ (λ s t. to_memory n (cast_word w (of_memory s)) ++ cast_struct ws t)
      (take_of_length n m rest len) (drop_of_length n m rest len)
    ∙ ap₂ ◌++◌ (member_twice w bytes (omega arith) ok) (
        cast_struct-cast_struct ws (drop n bytes) (omega (arith, length-drop n bytes))
          (Bytes-drop n bytes ok))
    ∙ take-append-drop n bytes
