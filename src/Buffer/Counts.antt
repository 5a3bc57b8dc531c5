-- ===== src/Buffer/Counts.antt =====
-- The reference count of `socket_buffer_t` against the buffers that hold it.
use p2p_live.Prelude.{
  ℕ, zero, suc, ◌+◌, ◌≡◌, ◌≢◌, ◌⊎◌, refl, arith, Option, none, some, List, [], ◌∷◌, inl, inr,
  if◌then◌else◌, ◌==◌, length, Option-cases, get_elem?_end,
}
use p2p_live.Buffer.Memory.{Heap, refs_at, bytes_at}
use p2p_live.Buffer.Memory.Updates.{bump_refs_lem, drop_refs_last, drop_refs_more, alloc_lem}
use p2p_live.Buffer.{SocketBuffer, of_length, copy, destroy}

abbrev pub holds : ℕ → Option ℕ → ℕ
holds i none = 0
holds i (some j) = if j == i then 1 else 0

-- How many of the buffers hold header `i`.
abbrev pub holders : ℕ → List SocketBuffer → ℕ
holders i [] = 0
holders i (b ∷ bs) = holds i b.header + holders i bs

abbrev pub expected : ℕ → Option ℕ
expected n = if n == 0 then none else some n

-- A buffer with a header points at the array that was allocated with it.
abbrev pub Paired : List SocketBuffer → Type 0
Paired [] = Unit {0}
Paired (b ∷ bs) = ((i : ℕ) → b.header ≡ some i → b.ptr ≡ some i) × Paired bs

-- Each header counts its holders, and is deleted with its array when there are none.
pub record Counted (h : Heap) (bs : List SocketBuffer) : Type 0 where
  pub counts : (i : ℕ) → refs_at h i ≡ expected (holders i bs)
  pub alive : (i : ℕ) → (refs_at h i ≡ none) ⊎ (bytes_at h i ≢ none)
  pub freed : (i : ℕ) → refs_at h i ≡ none → bytes_at h i ≡ none
  pub paired : Paired bs

module _ {h : Heap} {b : SocketBuffer} {bs : List SocketBuffer} where
  copy_null :
      b.header ≡ none
      → Counted h (b ∷ bs)
      → (h' : Heap) × (copy b h ≡ some (b, h')) × Counted h' (b ∷ b ∷ bs)
  unfolding copy
  copy_null e v = (
    h,
    ground arith,
    record {
      counts = λ i. ground (arith, v.counts i);
      alive = v.alive;
      freed = v.freed;
      paired = (v.paired.0, v.paired);
    },
  )

  copy_shared :
      (i : ℕ)
      → b.header ≡ some i
      → Counted h (b ∷ bs)
      → (h' : Heap) × (copy b h ≡ some (b, h')) × Counted h' (b ∷ b ∷ bs)
  unfolding copy
  copy_shared i e v =
      let (h', ran, u) = bump_refs_lem i (holders i bs + 1) h (ground (arith, v.counts i)) in
      (
        h',
        ground arith,
        record {
          counts = λ j. ground (arith, v.counts j, u.refs j);
          alive = λ j. ground (arith, v.alive j, v.counts j, u.refs j, u.bytes j);
          freed = λ j z. ground (arith, v.freed j, v.counts j, u.refs j, u.bytes j, z);
          paired = (v.paired.0, v.paired);
        },
      )

  -- The destructor of a buffer with no header changes nothing.
  destroy_null :
      b.header ≡ none → Counted h (b ∷ bs) → (h' : Heap) × (destroy b h ≡ some h') × Counted h' bs
  unfolding destroy
  destroy_null e v = (
    h,
    ground arith,
    record {
      counts = λ i. ground (arith, v.counts i);
      alive = v.alive;
      freed = v.freed;
      paired = v.paired.1;
    },
  )

  destroy_last :
      (i : ℕ)
      → b.header ≡ some i
      → holders i bs ≡ 0
      → Counted h (b ∷ bs)
      → (h' : Heap) × (destroy b h ≡ some h') × Counted h' bs
  unfolding destroy
  destroy_last i e z v =
      let (h', ran, u) =
        drop_refs_last i h (ground (arith, v.counts i)) (ground (arith, v.counts i, v.alive i)) in
      (
        h',
        ground (arith, v.paired.0 i e),
        record {
          counts = λ j. ground (arith, v.counts j, u.refs j);
          alive = λ j. ground (arith, v.alive j, u.refs j, u.bytes j);
          freed = λ j z. ground (arith, v.freed j, u.refs j, u.bytes j, z);
          paired = v.paired.1;
        },
      )

  destroy_shared :
      (i n : ℕ)
      → b.header ≡ some i
      → holders i bs ≡ suc n
      → Counted h (b ∷ bs)
      → (h' : Heap) × (destroy b h ≡ some h') × Counted h' bs
  unfolding destroy
  destroy_shared i n e z v =
      let (h', ran, u) = drop_refs_more i n h (ground (arith, v.counts i)) in
      (
        h',
        ground (arith, v.paired.0 i e),
        record {
          counts = λ j. ground (arith, v.counts j, u.refs j);
          alive = λ j. ground (arith, v.alive j, v.counts j, u.refs j, u.bytes j);
          freed = λ j z. ground (arith, v.freed j, v.counts j, u.refs j, u.bytes j, z);
          paired = v.paired.1;
        },
      )

-- A copy adds one to the count of a shared block, and cannot fault.
pub copy-Counted :
    (h : Heap) (b : SocketBuffer) (bs : List SocketBuffer)
    → Counted h (b ∷ bs)
    → (h' : Heap) × (copy b h ≡ some (b, h')) × Counted h' (b ∷ b ∷ bs)
copy-Counted h b bs v = elim (Option-cases b.header) [
  | inl e ↦ copy_null e v
  | inr (i, e) ↦ copy_shared i e v
]

-- The destructor takes one off the count, deletes the block with its last holder, and cannot fault.
pub destroy-Counted :
    (h : Heap) (b : SocketBuffer) (bs : List SocketBuffer)
    → Counted h (b ∷ bs)
    → (h' : Heap) × (destroy b h ≡ some h') × Counted h' bs
destroy-Counted h b bs v = elim (Option-cases b.header) [
  | inl e ↦ destroy_null e v
  | inr (i, e) ↦ by_holders i e (holders i bs) refl
]
  where
    by_holders :
        (i : ℕ)
        → b.header ≡ some i
        → (n : ℕ) → holders i bs ≡ n
        → (h' : Heap) × (destroy b h ≡ some h') × Counted h' bs
    by_holders i e zero z = destroy_last i e z v
    by_holders i e (suc n) z = destroy_shared i n e z v

-- No header has a number past the end of the heap.
fresh_holders : (h : Heap) (bs : List SocketBuffer) → Counted h bs → holders (length h) bs ≡ 0
fresh_holders h bs v = ground (arith, v.counts (length h), get_elem?_end h)

pub of_length-Counted :
    (raw : List ℕ) (h : Heap) (bs : List SocketBuffer)
    → Counted h bs
    → let (b, h') = of_length raw h in Counted h' (b ∷ bs)
unfolding of_length
of_length-Counted raw h bs v =
    let u = alloc_lem raw h in
    let fresh = fresh_holders h bs v in
    record {
      counts = λ j. ground (arith, u.0 j, v.counts j, fresh);
      alive = λ j. ground (arith, u.0 j, u.1 j, v.alive j);
      freed = λ j z. ground (arith, u.0 j, u.1 j, v.freed j, z);
      paired = ((λ i e. e), v.paired);
    }
