-- ===== src/Tracker/Search.antt =====
-- The loop that both strategies of a node request share: round the table from a random start.
use p2p_live.Prelude.{
  ℕ, zero, suc, ◌+◌, ◌-◌, ◌≤◌, ◌<◌, ◌≡◌, refl, sym, ap, ◌∙◌, arith, Bool, true, false, ◌&&◌, ◌||◌,
  Option, none, some, List, [], ◌∷◌, ◌++◌, if◌then◌else◌, ltb, leb, ◌==◌, length, get_elem?, take,
  drop, Bool-cases, get_elem?-some, drop_all, take_all, take-length, none-ne-some, inl, inr,
  length-append,
}
use mathlib.Core.List.{append-nil, append_assoc}
use p2p_live.Proto.{Node}
use p2p_live.Tracker.{NodeInfo}

-- `rsp.add_nodes()` where the entry qualifies.
abbrev pub picked : (NodeInfo → Bool) → Option NodeInfo → List Node
picked pick none = []
picked pick (some info) = if pick info then info.node ∷ [] else []

-- The body's first lines: `if (j >= node_infos.size()) { over = true; j = 0; }`.
abbrev pub wrap_index : ℕ → ℕ → ℕ
wrap_index size j = if leb size j then 0 else j

-- `for (int j = start; rsp.nodes_size() < cnt; j++) ...`; `none` when the fuel runs out.
unfoldable pub node_loop :
    ℕ → List NodeInfo → ℕ → (NodeInfo → Bool) → ℕ → ℕ → Bool → List Node → Option (List Node)
node_loop zero infos cnt pick start j over acc = none
node_loop (suc fuel) infos cnt pick start j over acc = elim (ltb (length acc) cnt) [
  | false ↦ some acc
  | true ↦
      let j' = wrap_index (length infos) j in
      let over' = over || leb (length infos) j in
      elim (j' == start && over') [
        | true ↦ some acc
        | false ↦
            node_loop fuel infos cnt pick start (j' + 1) over'
              (acc ++ picked pick (get_elem? infos j'))
      ]
]

-- The nodes of the entries that qualify.
abbrev pub matching : (NodeInfo → Bool) → List NodeInfo → List Node
matching pick [] = []
matching pick (x ∷ xs) = if pick x then x.node ∷ matching pick xs else matching pick xs

-- The loop over the entries that are still to come.
collect : ℕ → (NodeInfo → Bool) → List NodeInfo → List Node → List Node
collect cnt pick [] acc = acc
collect cnt pick (x ∷ xs) acc =
    let rest = collect cnt pick xs (acc ++ picked pick (some x)) in
    if ltb (length acc) cnt then rest else acc

-- The table from index `start` on, and then from its beginning.
abbrev pub rotate : ℕ → List NodeInfo → List NodeInfo
rotate start xs = drop start xs ++ take start xs

-- The entries from `j` up to `start`, which are left in the second round.
abbrev between : ℕ → ℕ → List NodeInfo → List NodeInfo
between j start xs = take (start - j) (drop j xs)

drop_step :
    (xs : List NodeInfo) (j : ℕ) (x : NodeInfo)
    → get_elem? xs j ≡ some x
    → drop j xs ≡ x ∷ drop (j + 1) xs
drop_step [] j x e = absurd (none-ne-some e)
drop_step (y ∷ xs) zero x e = ground arith
drop_step (y ∷ xs) (suc j) x e = drop_step xs j x e ∙ ap (λ k. x ∷ drop k (y ∷ xs)) (omega_suc j)
  where
    omega_suc : (j : ℕ) → suc (j + 1) ≡ suc j + 1
    omega_suc j = omega arith

between_step :
    (xs : List NodeInfo) (j start : ℕ) (x : NodeInfo)
    → get_elem? xs j ≡ some x
    → j < start
    → between j start xs ≡ x ∷ between (j + 1) start xs
between_step xs j start x e h =
    let n : start - j ≡ suc (start - (j + 1)) = omega arith in
    ap (take (start - j)) (drop_step xs j x e) ∙ ap (λ k. take k (x ∷ drop (j + 1) xs)) n

collect_full :
    (cnt : ℕ) (pick : NodeInfo → Bool) (xs : List NodeInfo) (acc : List Node)
    → ltb (length acc) cnt ≡ false
    → collect cnt pick xs acc ≡ acc
unfolding collect
collect_full cnt pick [] acc h = refl
collect_full cnt pick (x ∷ xs) acc h = ground arith

module _ (infos : List NodeInfo) (cnt : ℕ) (pick : NodeInfo → Bool) (start : ℕ)
    (inside : start < length infos) where
  node_loop_second :
      (fuel j : ℕ) (acc : List Node)
      → j ≤ start
      → start - j < fuel
      → node_loop fuel infos cnt pick start j true acc
        ≡ some (collect cnt pick (between j start infos) acc)
  unfolding node_loop collect
  node_loop_second zero j acc h f = absurd (omega arith)
  node_loop_second (suc fuel) j acc h f = elim (Bool-cases (ltb (length acc) cnt)) [
    | inl room ↦ elim (Bool-cases (j == start)) [
      | inl stop ↦
          let e : start - j ≡ 0 = ground arith in
          ground (arith, room, ap (λ k. take k (drop j infos)) e)
      | inr more ↦
          let (x, hit) = get_elem?-some infos j (omega arith) in
          let step = between_step infos j start x hit (ground arith) in
          ground (
            arith,
            room,
            hit,
            step,
            node_loop_second fuel (j + 1) (acc ++ picked pick (some x)) (ground arith)
                (ground arith),
          )
    ]
    | inr full ↦ ground (arith, full, collect_full cnt pick (between j start infos) acc full)
  ]

  -- The wrap itself: the index starts again at 0, and stops there if the start was 0.
  node_loop_wrap :
      (fuel : ℕ) (acc : List Node)
      → start < fuel
      → node_loop fuel infos cnt pick start (length infos) false acc
        ≡ some (collect cnt pick (take start infos) acc)
  unfolding node_loop collect
  node_loop_wrap zero acc f = absurd (omega arith)
  node_loop_wrap (suc fuel) acc f = elim (Bool-cases (ltb (length acc) cnt)) [
    | inl room ↦ elim (Bool-cases (0 == start)) [
      | inl stop ↦
          let e : start ≡ 0 = ground arith in ground (arith, room, ap (λ k. take k infos) e)
      | inr more ↦
          let (x, hit) = get_elem?-some infos 0 (omega arith) in
          let step = between_step infos 0 start x hit (ground arith) in
          let whole : start - 0 ≡ start = omega arith in
          ground (
            arith,
            room,
            hit,
            step,
            ap (λ k. take k infos) whole,
            node_loop_second fuel 1 (acc ++ picked pick (some x)) (ground arith) (ground arith),
          )
    ]
    | inr full ↦ ground (arith, full, collect_full cnt pick (take start infos) acc full)
  ]

  node_loop_first :
      (fuel j : ℕ) (acc : List Node)
      → j ≤ length infos
      → (length infos - j) + start < fuel
      → node_loop fuel infos cnt pick start j false acc
        ≡ some (collect cnt pick (drop j infos ++ take start infos) acc)
  unfolding node_loop collect
  node_loop_first zero j acc h f = absurd (omega arith)
  node_loop_first (suc fuel) j acc h f = elim (Bool-cases (leb (length infos) j)) [
    | inl out ↦
        let e : j ≡ length infos = ground arith in
        rw (e, drop_all (length infos) infos (omega arith))
          (node_loop_wrap (suc fuel) acc (omega arith))
    | inr within ↦
        let (x, hit) = get_elem?-some infos j (ground arith) in
        ground (
          arith,
          hit,
          drop_step infos j x hit,
          node_loop_first fuel (j + 1) (acc ++ picked pick (some x)) (ground arith) (ground arith),
          collect_full cnt pick (drop j infos ++ take start infos) acc,
        )
  ]

take_le : (n : ℕ) (xs ys : List Node) → length xs ≡ n → take n (xs ++ ys) ≡ xs
take_le n xs ys e = ap (λ k. take k (xs ++ ys)) (sym e) ∙ take-length xs ys

collect-take :
    (cnt : ℕ) (pick : NodeInfo → Bool) (xs : List NodeInfo) (acc : List Node)
    → length acc ≤ cnt
    → collect cnt pick xs acc ≡ take cnt (acc ++ matching pick xs)
unfolding collect
collect-take cnt pick [] acc h = sym (ap (take cnt) (append-nil acc) ∙ take_all cnt acc h)
collect-take cnt pick (x ∷ xs) acc h = elim (Bool-cases (ltb (length acc) cnt)) [
  | inl room ↦ elim (Bool-cases (pick x)) [
    | inl fits ↦
        rw (room, fits)
          (collect-take cnt pick xs (acc ++ x.node ∷ [])
              (ground (arith, length-append acc (x.node ∷ [])))
            ∙ ap (take cnt) (append_assoc acc (x.node ∷ []) (matching pick xs)))
    | inr not_fit ↦
        rw (room, not_fit)
          (ap (collect cnt pick xs) (append-nil acc) ∙ collect-take cnt pick xs acc h)
  ]
  | inr full ↦ ground (arith, full, take_le cnt acc (matching pick (x ∷ xs)) (ground arith))
]

-- From a start inside the table the loop ends, and gives the first `cnt` entries that qualify, in
-- the order of the table from `start` on and round to it, each at most once.
pub node_loop_lem :
    (infos : List NodeInfo) (cnt : ℕ) (pick : NodeInfo → Bool) (start : ℕ)
    → start < length infos
    → node_loop (length infos + 1) infos cnt pick start start false []
      ≡ some (take cnt (matching pick (rotate start infos)))
node_loop_lem infos cnt pick start h =
    node_loop_first infos cnt pick start h (length infos + 1) start [] (omega arith) (omega arith)
    ∙ ap some (collect-take cnt pick (rotate start infos) [] (omega arith))
