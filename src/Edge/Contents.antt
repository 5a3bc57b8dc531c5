-- ===== src/Edge/Contents.antt =====
-- The store of fragments against the plain map it is meant to be.
use p2p_live.Prelude.{
  ℕ, ◌-◌, ◌≤◌, ◌<◌, ◌≡◌, refl, ap, ◌∙◌, Bool-cases, arith, Option, none, some, List, [], ◌∷◌, ◌++◌,
  if◌then◌else◌, ◌==◌, get_elem?, ==_iff, length, lookup, nat_eq, lookup-emplace_new, emplace_old,
  lookup-insert, Option-cases, inl, inr, get_elem?-append_left, get_elem?-some,
  get_elem?-append_last, length-append, length-drop,
}
use p2p_live.Edge.{
  SessionFragmentContent, empty_fragments, add_fragment, get_fragment, add_meta, get_meta,
  or_null_buffer,
}

-- The fragment that is stored under a number.
abbrev pub fragment_at : ℕ → SessionFragmentContent → Option (List ℕ)
fragment_at key s = elim (lookup key s.map) [ none ↦ none | some i ↦ get_elem? s.vector i ]

-- The older of two buffers.
abbrev pub first : Option (List ℕ) → List ℕ → Option (List ℕ)
first none b = some b
first (some a) b = some a

-- What `get_data` makes of a fragment that may not be there.
abbrev pub or_empty : Option (List ℕ) → Option (List ℕ)
or_empty none = some []
or_empty (some b) = some b

-- Every index of the map is in range, and the queue holds 50 entries at most.
pub record IsStored (s : SessionFragmentContent) : Type 0 where
  pub in_range : (key i : ℕ) → lookup key s.map ≡ some i → i < length s.vector
  pub short : length s.queue ≤ 50

pub empty_fragments-IsStored : IsStored empty_fragments
empty_fragments-IsStored = record { in_range = λ key i e. ground arith; short = omega arith }

-- `add_data` keeps the indices of the map in range and the queue at 50 entries at most.
pub add_fragment-IsStored :
    (buffer : List ℕ) (fid : ℕ) (s : SessionFragmentContent)
    → IsStored s
    → IsStored (add_fragment buffer fid s)
unfolding add_fragment
add_fragment-IsStored buffer fid s h = record {
  in_range = λ key i e.
      let long = length-append s.vector (buffer ∷ []) in
      elim (Option-cases (lookup fid s.map)) [
        | inl new ↦
            let at = lookup-emplace_new fid key (length s.vector) s.map new in
            let old = h.in_range key i in ground arith
        | inr (j, there) ↦
            let same = emplace_old fid (length s.vector) j s.map there in
            let old = h.in_range key i in ground arith
      ];
  short =
      let q = s.queue ++ length s.vector ∷ [] in
      omega (
        arith,
        length-drop (length q - 50) q,
        length-append s.queue (length s.vector ∷ []),
        h.short,
      );
}

get_fragment_lem :
    (key : ℕ) (s : SessionFragmentContent)
    → IsStored s
    → get_fragment key s ≡ or_empty (fragment_at key s)
unfolding get_fragment
get_fragment_lem key s h = elim (Option-cases (lookup key s.map)) [
  | inl out ↦ ground (arith, out)
  | inr (i, there) ↦
      let (x, at) = get_elem?-some s.vector i (h.in_range key i there) in ground (arith, there, at)
]

fragment_at-add_fragment :
    (buffer : List ℕ) (fid key : ℕ) (s : SessionFragmentContent)
    → IsStored s
    → fragment_at key (add_fragment buffer fid s)
      ≡ (if fid == key then first (fragment_at key s) buffer else fragment_at key s)
unfolding add_fragment
fragment_at-add_fragment buffer fid key s h = elim (Option-cases (lookup fid s.map)) [
  | inl new ↦
      let at = lookup-emplace_new fid key (length s.vector) s.map new in
      elim (Option-cases (lookup key s.map)) [
        | inl out ↦
            let last = get_elem?-append_last s.vector buffer in ground (arith, ==_iff fid key)
        | inr (i, there) ↦
            let left = get_elem?-append_left s.vector (buffer ∷ []) i (h.in_range key i there) in
            ground (arith, ==_iff fid key)
      ]
  | inr (j, hit) ↦
      let same = emplace_old fid (length s.vector) j s.map hit in
      elim (Option-cases (lookup key s.map)) [
        | inl out ↦ ground (arith, ==_iff fid key)
        | inr (i, there) ↦
            let range = h.in_range key i there in
            let left = get_elem?-append_left s.vector (buffer ∷ []) i range in
            let (x, at) = get_elem?-some s.vector i range in ground (arith, ==_iff fid key)
      ]
]

-- Where the indices of the store are in range, `add_data` changes what is found under its own number
-- only, and there only where nothing was stored before: the first fragment of a number wins. For a
-- number with no fragment `get_data` gives an empty buffer, which the caller cannot tell from one
-- that is stored.
pub get_fragment-add_fragment :
    (buffer : List ℕ) (fid key : ℕ) (s : SessionFragmentContent)
    → IsStored s
    → (get_fragment key s ≡ or_empty (fragment_at key s))
      × (get_fragment key (add_fragment buffer fid s)
          ≡ or_empty (if fid == key then first (fragment_at key s) buffer else fragment_at key s))
get_fragment-add_fragment buffer fid key s h = (
  get_fragment_lem key s h,
  get_fragment_lem key (add_fragment buffer fid s) (add_fragment-IsStored buffer fid s h)
      ∙ ap or_empty (fragment_at-add_fragment buffer fid key s h),
)

-- Metadata is the other way round: the last value of a key wins.
pub get_meta-add_meta :
    (buffer : List ℕ) (key k : ℕ) (raw_data : List (ℕ × List ℕ))
    → get_meta k (add_meta buffer key raw_data) ≡ (if key == k then buffer else get_meta k raw_data)
unfolding add_meta get_meta
get_meta-add_meta buffer key k raw_data =
    ap or_null_buffer (lookup-insert key k buffer raw_data)
    ∙ (elim (Bool-cases (key == k)) [ inl same ↦ rw same refl | inr other ↦ rw other refl ])
