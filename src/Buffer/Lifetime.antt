-- ===== src/Buffer/Lifetime.antt =====
-- Whole histories of buffers: construction, copies, moves, window changes and destruction in any
-- order, and the assignment operator, which breaks the count.
use p2p_live.Prelude.{
  ℕ, ◌+◌, ◌∙◌, sym, ap, subst, inl, ◌≡◌, ◌≢◌, refl, arith, Option, none, some, List, [], ◌∷◌, ◌++◌,
  false,
}
use p2p_live.Buffer.Memory.{Heap, refs_at, bytes_at}
use p2p_live.Buffer.{SocketBuffer, of_length, of_pointer, copy, assign, move, destroy}
use p2p_live.Buffer.Counts.{
  Counted, Paired, holders, copy-Counted, destroy-Counted, of_length-Counted,
}

-- One operation on the buffers that are alive; the one it works on stands first.
pub data Step : Heap → List SocketBuffer → Heap → List SocketBuffer → Type 0 where
  constructs :
      {h : Heap} {bs : List SocketBuffer} (raw : List ℕ)
      → Step h bs (of_length raw h).1 ((of_length raw h).0 ∷ bs)
  wraps : {h : Heap} {bs : List SocketBuffer} (p len : ℕ) → Step h bs h (of_pointer p len ∷ bs)
  copies :
      {h h' : Heap} {b : SocketBuffer} {bs : List SocketBuffer}
      → copy b h ≡ some (b, h')
      → Step h (b ∷ bs) h' (b ∷ b ∷ bs)
  moves :
      {h : Heap} {b : SocketBuffer} {bs : List SocketBuffer}
      → Step h (b ∷ bs) h ((move b).0 ∷ (move b).1 ∷ bs)
  walks :
      {h : Heap} {b c : SocketBuffer} {bs : List SocketBuffer}
      → c.ptr ≡ b.ptr
      → c.header ≡ b.header
      → Step h (b ∷ bs) h (c ∷ bs)
  destroys :
      {h h' : Heap} {b : SocketBuffer} {bs : List SocketBuffer}
      → destroy b h ≡ some h'
      → Step h (b ∷ bs) h' bs
  turns : {h : Heap} {b : SocketBuffer} {bs : List SocketBuffer} → Step h (b ∷ bs) h (bs ++ b ∷ [])

pub data Reach : Heap → List SocketBuffer → Type 0 where
  start : Reach [] []
  next : {h h' : Heap} {bs cs : List SocketBuffer} → Reach h bs → Step h bs h' cs → Reach h' cs

holders-append :
    (i : ℕ) (bs : List SocketBuffer) (b : SocketBuffer)
    → holders i (bs ++ b ∷ []) ≡ holders i (b ∷ bs)
holders-append i [] b = refl
holders-append i (c ∷ bs) b = omega (arith, holders-append i bs b)

Paired-append :
    (bs : List SocketBuffer) (b : SocketBuffer) → Paired (b ∷ bs) → Paired (bs ++ b ∷ [])
Paired-append [] b p = p
Paired-append (c ∷ bs) b p = (p.1.0, Paired-append bs b (p.0, p.1.1))

same_heap : {h h' : Heap} {o : Option Heap} → o ≡ some h → o ≡ some h' → h ≡ h'
same_heap e f = cc

copied_heap :
    {h h' : Heap} {b c : SocketBuffer} {o : Option (SocketBuffer × Heap)}
    → o ≡ some (b, h)
    → o ≡ some (c, h')
    → h ≡ h'
copied_heap e f = ground arith

copied_buffer :
    {h h' : Heap} {b c : SocketBuffer} {o : Option (SocketBuffer × Heap)}
    → o ≡ some (b, h)
    → o ≡ some (c, h')
    → b ≡ c
copied_buffer e f = ground arith

swap_first :
    {h : Heap} {b c : SocketBuffer} {bs : List SocketBuffer}
    → Counted h (b ∷ c ∷ bs)
    → Counted h (c ∷ b ∷ bs)
swap_first v = record {
  counts = λ i. ground (arith, v.counts i);
  alive = v.alive;
  freed = v.freed;
  paired = (v.paired.1.0, (v.paired.0, v.paired.1.1));
}

Step-Counted :
    {h h' : Heap} {bs cs : List SocketBuffer} → Step h bs h' cs → Counted h bs → Counted h' cs
unfolding of_pointer move
Step-Counted (constructs raw) v = of_length-Counted raw _ _ v
Step-Counted (wraps p len) v = record {
  counts = λ i. ground (arith, v.counts i);
  alive = v.alive;
  freed = v.freed;
  paired = ((λ i e. cc), v.paired);
}
Step-Counted (copies {h} {h'} {b} {bs} e) v =
    let (k, ran, w) = copy-Counted h b bs v in
    subst (λ g. Counted g (b ∷ b ∷ bs)) (copied_heap ran e) w
Step-Counted (moves {h} {b} {bs}) v = record {
  counts = λ i. ground (arith, v.counts i);
  alive = v.alive;
  freed = v.freed;
  paired = (v.paired.0, ((λ i e. cc), v.paired.1));
}
Step-Counted (walks {h} {b} {c} {bs} p q) v = record {
  counts = λ i. ground (arith, v.counts i);
  alive = v.alive;
  freed = v.freed;
  paired = ((λ i e. p ∙ v.paired.0 i (sym q ∙ e)), v.paired.1);
}
Step-Counted (destroys {h} {h'} {b} {bs} e) v =
    let (k, ran, w) = destroy-Counted h b bs v in subst (λ g. Counted g bs) (same_heap ran e) w
Step-Counted (turns {h} {b} {bs}) v = record {
  counts = λ i. ground (arith, v.counts i, holders-append i bs b);
  alive = v.alive;
  freed = v.freed;
  paired = Paired-append bs b v.paired;
}

-- In every history each header counts exactly the buffers that hold it.
pub Reach-Counted : {h : Heap} {bs : List SocketBuffer} → Reach h bs → Counted h bs
Reach-Counted start = record {
  counts = λ i. refl;
  alive = λ i. inl refl;
  freed = λ i z. refl;
  paired = tt;
}
Reach-Counted (next r s) = Step-Counted s (Reach-Counted r)

pub destroy_all : List SocketBuffer → Heap → Option Heap
destroy_all [] h = some h
destroy_all (b ∷ bs) h = elim (destroy b h) [ none ↦ none | some h' ↦ destroy_all bs h' ]

destroy_all-Counted :
    (bs : List SocketBuffer) (h : Heap)
    → Counted h bs
    → (h' : Heap) × (destroy_all bs h ≡ some h')
      × ((i : ℕ) → (refs_at h' i ≡ none) × (bytes_at h' i ≡ none))
unfolding destroy_all
destroy_all-Counted [] h v = (h, refl, λ i. (v.counts i, v.freed i (v.counts i)))
destroy_all-Counted (b ∷ bs) h v =
    let (h', ran, w) = destroy-Counted h b bs v in
    let (last, ran', gone) = destroy_all-Counted bs h' w in (last, rw (ran, destroy_all) ran', gone)

-- After any history of constructions, copies, moves, window changes and destructions, without
-- assignments, the buffers that are left can be destroyed, none of it faults, and every header and
-- every array is then deleted.
pub destroy_all_lem :
    (h : Heap) (bs : List SocketBuffer)
    → Reach h bs
    → (h' : Heap) × (destroy_all bs h ≡ some h')
      × ((i : ℕ) → (refs_at h' i ≡ none) × (bytes_at h' i ≡ none))
destroy_all_lem h bs r = destroy_all-Counted bs h (Reach-Counted r)

-- The defect of `operator=`: where the counts are right and the two sides hold different headers,
-- the count of the header that the left side gave up stays one too high.
pub assign_leaks :
    (h : Heap) (dst src : SocketBuffer) (bs : List SocketBuffer) (i : ℕ)
    → Counted h (dst ∷ src ∷ bs)
    → dst.header ≡ some i
    → src.header ≢ some i
    → (dst' : SocketBuffer) (h' : Heap) → assign false dst src h ≡ some (dst', h')
    → (holders i (dst' ∷ src ∷ bs) + 1 ≡ holders i (dst ∷ src ∷ bs))
      × (refs_at h' i ≡ some (holders i (dst' ∷ src ∷ bs) + 1))
unfolding assign
assign_leaks h dst src bs i v e ne dst' h' ran =
    let (k, ran', w) = copy-Counted h src (dst ∷ bs) (swap_first v) in
    let same : dst' ≡ src = sym (copied_buffer ran' ran) in
    let refs : refs_at h' i ≡ refs_at k i = ap (λ g. refs_at g i) (sym (copied_heap ran' ran)) in
    (ground arith, ground (arith, w.counts i))
