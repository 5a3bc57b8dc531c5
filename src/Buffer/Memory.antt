-- ===== src/Buffer/Memory.antt =====
-- The blocks behind `socket_buffer_t`: an array of bytes and, where the buffer allocated it, a
-- `socket_buffer_header_t` beside it.
pub mod Updates
use p2p_live.Prelude.{
  ℕ, ◌+◌, ◌-◌, true, false, Option, none, some, List, [], ◌∷◌, ◌++◌, if◌then◌else◌, leb, ◌==◌,
  length, get_elem?, set, take, drop,
}

-- `bytes` is `none` once the array is deleted; `refs` is `none` where there is no header, or no
-- longer.
pub record Block : Type 0 where
  pub bytes : Option (List ℕ)
  pub refs : Option ℕ

abbrev pub Heap : Type 0
Heap = List Block

abbrev pub refs_of : Option Block → Option ℕ
refs_of none = none
refs_of (some k) = k.refs

abbrev pub bytes_of : Option Block → Option (List ℕ)
bytes_of none = none
bytes_of (some k) = k.bytes

abbrev pub refs_at : Heap → ℕ → Option ℕ
refs_at h i = refs_of (get_elem? h i)

abbrev pub bytes_at : Heap → ℕ → Option (List ℕ)
bytes_at h i = bytes_of (get_elem? h i)

-- `new byte[len]` and `new socket_buffer_header_t()` with a count of one.
unfoldable pub alloc : List ℕ → Heap → Heap
alloc raw h = h ++ record { bytes = some raw; refs = some 1 } ∷ []

-- An array that the user of the buffer owns.
unfoldable pub adopt : List ℕ → Heap → Heap
adopt raw h = h ++ record { bytes = some raw; refs = none } ∷ []

abbrev pub with_refs : Option ℕ → Option Block → Block
with_refs n none = record { bytes = none; refs = n }
with_refs n (some k) = record k { refs = n }

-- `header->ref_count++`
unfoldable pub bump_refs : ℕ → Heap → Option Heap
bump_refs i h = elim (refs_at h i) [
  | none ↦ none
  | some n ↦ some (set h i (with_refs (some (n + 1)) (get_elem? h i)))
]

-- `delete[] ptr`
unfoldable pub delete_bytes : ℕ → Heap → Option Heap
delete_bytes p h = elim (bytes_at h p) [
  | none ↦ none
  | some _ ↦ some (set h p (record { bytes = none; refs = refs_at h p }))
]

-- `if (--header->ref_count == 0) { delete[] ptr; delete header; }`
unfoldable pub drop_refs : ℕ → ℕ → Heap → Option Heap
unfolding delete_bytes
drop_refs p i h = elim (refs_at h i) [
  | none ↦ none
  | some n ↦ elim (n == 1) [
    | true ↦ elim (delete_bytes p h) [
      | none ↦ none
      | some h' ↦ some (set h' i (with_refs none (get_elem? h' i)))
    ]
    | false ↦ some (set h i (with_refs (some (n - 1)) (get_elem? h i)))
  ]
]

abbrev pub splice : List ℕ → ℕ → List ℕ → List ℕ
splice xs off ys = take off xs ++ (ys ++ drop (off + length ys) xs)

-- A write of `ys` at `off` bytes into block `p`.
unfoldable pub overwrite_at : ℕ → ℕ → List ℕ → Heap → Option Heap
overwrite_at p off ys h = elim (bytes_at h p) [
  | none ↦ none
  | some xs ↦
      if leb (off + length ys) (length xs)
      then some (set h p (record { bytes = some (splice xs off ys); refs = refs_at h p }))
      else none
]

-- A read of `n` bytes at `off` in block `p`.
unfoldable pub read_range : ℕ → ℕ → ℕ → Heap → Option (List ℕ)
read_range p off n h = elim (bytes_at h p) [
  | none ↦ none
  | some xs ↦ if leb (off + n) (length xs) then some (take n (drop off xs)) else none
]
