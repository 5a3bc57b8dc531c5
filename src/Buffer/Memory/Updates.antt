-- ===== src/Buffer/Memory/Updates.antt =====
-- What the updates of a block change, and what they leave alone.
use p2p_live.Prelude.{
  ℕ, ◌+◌, ◌≡◌, ◌≢◌, arith, none, some, List, inl, inr, if◌then◌else◌, ◌==◌, length, get_elem?, set,
  none-ne-some, Option-cases, get_elem?-set_hit, get_elem?-append_one, le→leb, ◌≤◌,
}
use p2p_live.Buffer.Memory.{
  Heap, Block, refs_at, bytes_at, bump_refs, drop_refs, alloc, overwrite_at, splice,
}

get_elem?_of_refs :
    (h : Heap) (i : ℕ) {n : ℕ}
    → refs_at h i ≡ some n
    → (b : Block) × (get_elem? h i ≡ some b) × (b.refs ≡ some n)
get_elem?_of_refs h i e = elim (Option-cases (get_elem? h i)) [
  | inl miss ↦ absurd (none-ne-some (rw miss at e))
  | inr (b, hit) ↦ (b, hit, rw hit at e)
]

-- Block `i` has count `n`, and nothing else changed.
pub record Bumped (i n : ℕ) (h h' : Heap) : Type 0 where
  pub refs : (j : ℕ) → refs_at h' j ≡ (if i == j then some n else refs_at h j)
  pub bytes : (j : ℕ) → bytes_at h' j ≡ bytes_at h j

-- The array and the header of block `i` are gone, and nothing else changed.
pub record Freed (i : ℕ) (h h' : Heap) : Type 0 where
  pub refs : (j : ℕ) → refs_at h' j ≡ (if i == j then none else refs_at h j)
  pub bytes : (j : ℕ) → bytes_at h' j ≡ (if i == j then none else bytes_at h j)

set_refs-Bumped :
    (i n : ℕ) (h : Heap) (b : Block)
    → get_elem? h i ≡ some b
    → Bumped i n h (set h i (record b { refs = some n }))
set_refs-Bumped i n h b e = record {
  refs = λ j. ground (arith, get_elem?-set_hit h i j (record b { refs = some n }) b e);
  bytes = λ j. ground (arith, get_elem?-set_hit h i j (record b { refs = some n }) b e);
}

pub bump_refs_lem :
    (i n : ℕ) (h : Heap)
    → refs_at h i ≡ some n
    → (h' : Heap) × (bump_refs i h ≡ some h') × Bumped i (n + 1) h h'
unfolding bump_refs
bump_refs_lem i n h e =
    let (b, hit, r) = get_elem?_of_refs h i e in
    (set h i (record b { refs = some (n + 1) }), ground arith, set_refs-Bumped i (n + 1) h b hit)

-- The last reference: both the array and the header go.
pub drop_refs_last :
    (i : ℕ) (h : Heap)
    → refs_at h i ≡ some 1
    → bytes_at h i ≢ none
    → (h' : Heap) × (drop_refs i i h ≡ some h') × Freed i h h'
unfolding drop_refs
drop_refs_last i h e a =
    let (b, hit, r) = get_elem?_of_refs h i e in
    let gone : Block = record { bytes = none; refs = some 1 } in
    let empty : Block = record { bytes = none; refs = none } in
    let mid = set h i gone in
    let now : get_elem? mid i ≡ some gone = ground (arith, get_elem?-set_hit h i i gone b hit) in
    (
      set mid i empty,
      ground (arith, now),
      record {
        refs = λ j.
            ground
              (arith, get_elem?-set_hit h i j gone b hit, get_elem?-set_hit mid i j empty gone now);
        bytes = λ j.
            ground
              (arith, get_elem?-set_hit h i j gone b hit, get_elem?-set_hit mid i j empty gone now);
      },
    )

pub drop_refs_more :
    (i n : ℕ) (h : Heap)
    → refs_at h i ≡ some (n + 2)
    → (h' : Heap) × (drop_refs i i h ≡ some h') × Bumped i (n + 1) h h'
unfolding drop_refs
drop_refs_more i n h e =
    let (b, hit, r) = get_elem?_of_refs h i e in
    (set h i (record b { refs = some (n + 1) }), ground arith, set_refs-Bumped i (n + 1) h b hit)

-- A fresh block has the next number.
pub alloc_lem :
    (raw : List ℕ) (h : Heap)
    → ((j : ℕ) → refs_at (alloc raw h) j ≡ (if length h == j then some 1 else refs_at h j))
      × ((j : ℕ) → bytes_at (alloc raw h) j ≡ (if length h == j then some raw else bytes_at h j))
unfolding alloc
alloc_lem raw h =
    let fresh : Block = record { bytes = some raw; refs = some 1 } in
    (
      λ j. ground (arith, get_elem?-append_one h fresh j),
      λ j. ground (arith, get_elem?-append_one h fresh j),
    )

get_elem?_of_bytes :
    (h : Heap) (i : ℕ) {xs : List ℕ}
    → bytes_at h i ≡ some xs
    → (b : Block) × (get_elem? h i ≡ some b) × (b.bytes ≡ some xs)
get_elem?_of_bytes h i e = elim (Option-cases (get_elem? h i)) [
  | inl miss ↦ absurd (none-ne-some (rw miss at e))
  | inr (b, hit) ↦ (b, hit, rw hit at e)
]

-- A write inside an array that is alive succeeds, and changes those bytes alone.
pub overwrite_at_lem :
    (p off : ℕ) (ys xs : List ℕ) (h : Heap)
    → bytes_at h p ≡ some xs
    → off + length ys ≤ length xs
    → (h' : Heap) × (overwrite_at p off ys h ≡ some h')
      × (bytes_at h' p ≡ some (splice xs off ys))
      × ((j : ℕ) → refs_at h' j ≡ refs_at h j)
unfolding overwrite_at
overwrite_at_lem p off ys xs h e fits =
    let (b, hit, _) = get_elem?_of_bytes h p e in
    let new : Block = record { bytes = some (splice xs off ys); refs = refs_at h p } in
    (
      set h p new,
      ground (arith, e, le→leb (off + length ys) (length xs) fits),
      ground (arith, get_elem?-set_hit h p p new b hit),
      λ j. ground (arith, get_elem?-set_hit h p j new b hit),
    )
