-- ===== src/Endian/Swap.antt =====
-- `cast` on one integer: the bytes in memory are turned round, so a second cast undoes the first.
use mathlib.Core.List.{reverse}
use p2p_live.Prelude.{
  ℕ, ◌+◌, ◌*◌, ◌/◌, ◌%◌, ap₂, ◌<◌, ◌≡◌, refl, ap, ◌∙◌, arith, All, List, [], ◌∷◌, length,
}
use p2p_live.Endian.{
  Width, byte1, byte2, byte4, byte8, size_of, cast_u8, cast_u16, cast_u32, cast_u64, cast_word,
  to_memory, of_memory,
}

abbrev pub Bytes : List ℕ → Type 0
Bytes = All (λ b. b < 256)

cast_u16-of_memory :
    (a b : ℕ) → a < 256 → b < 256 → cast_u16 (of_memory (a ∷ b ∷ [])) ≡ of_memory (b ∷ a ∷ [])
unfolding cast_u16
cast_u16-of_memory a b ha hb = omega arith

cast_u32-of_memory :
    (a b c d : ℕ)
    → a < 256
    → b < 256
    → c < 256
    → d < 256
    → cast_u32 (of_memory (a ∷ b ∷ c ∷ d ∷ [])) ≡ of_memory (d ∷ c ∷ b ∷ a ∷ [])
unfolding cast_u32
cast_u32-of_memory a b c d ha hb hc hd = omega arith

cast_u64-of_memory :
    (a b c d e f g h : ℕ)
    → Bytes (a ∷ b ∷ c ∷ d ∷ e ∷ f ∷ g ∷ h ∷ [])
    → cast_u64 (of_memory (a ∷ b ∷ c ∷ d ∷ e ∷ f ∷ g ∷ h ∷ []))
      ≡ of_memory (h ∷ g ∷ f ∷ e ∷ d ∷ c ∷ b ∷ a ∷ [])
unfolding cast_u64
cast_u64-of_memory a b c d e f g h v = omega arith

pub to_memory-of_memory : (xs : List ℕ) → Bytes xs → to_memory (length xs) (of_memory xs) ≡ xs
to_memory-of_memory [] h = refl
to_memory-of_memory (x ∷ xs) (h, hs) =
    let low : (x + 256 * of_memory xs) % 256 ≡ x = omega arith in
    let rest : (x + 256 * of_memory xs) / 256 ≡ of_memory xs = omega arith in
    ap₂ ◌∷◌ low (ap (to_memory (length xs)) rest ∙ to_memory-of_memory xs hs)

-- The bytes that a member of width `w` takes in memory after `cast` are those before it, in the
-- other order.
pub cast_word-memory :
    (w : Width) (xs : List ℕ)
    → length xs ≡ size_of w
    → Bytes xs
    → to_memory (size_of w) (cast_word w (of_memory xs)) ≡ reverse xs
unfolding cast_word cast_u8
cast_word-memory byte1 (a ∷ []) e h = to_memory-of_memory (a ∷ []) h
cast_word-memory byte1 xs e h = absurd (omega arith)
cast_word-memory byte2 (a ∷ b ∷ []) e v =
    ap (to_memory 2) (cast_u16-of_memory a b v.0 v.1.0)
    ∙ to_memory-of_memory (b ∷ a ∷ []) (omega arith)
cast_word-memory byte2 xs e h = absurd (omega arith)
cast_word-memory byte4 (a ∷ b ∷ c ∷ d ∷ []) e v =
    ap (to_memory 4) (cast_u32-of_memory a b c d v.0 v.1.0 v.1.1.0 v.1.1.1.0)
    ∙ to_memory-of_memory (d ∷ c ∷ b ∷ a ∷ []) (omega arith)
cast_word-memory byte4 xs e h = absurd (omega arith)
cast_word-memory byte8 (a ∷ b ∷ c ∷ d ∷ e ∷ f ∷ g ∷ h ∷ []) _ v =
    ap (to_memory 8) (cast_u64-of_memory a b c d e f g h v)
    ∙ to_memory-of_memory (h ∷ g ∷ f ∷ e ∷ d ∷ c ∷ b ∷ a ∷ []) (omega arith)
cast_word-memory byte8 xs e h = absurd (omega arith)
