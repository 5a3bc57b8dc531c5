-- ===== src/Rudp/Directory.antt =====
-- The nested maps of endpoints refine a plain directory.
use p2p_live.Prelude.{
  ℕ, ◌≡◌, refl, sym, ap, subst, ◌∙◌, Bool, ◌&&◌, Option, some, List, [], ◌∷◌, if◌then◌else◌, ◌==◌,
  inl, inr, Bool-cases, Option-cases, lookup, insert, nat_eq, filter_map, and_then, IsMap, some_eq,
  none-ne-some, lookup-insert, lookup-filter_map, filter_map-IsMap, insert-IsMap,
}
use p2p_live.SocketAddr.{SocketAddr, addr_eq, addr_eq_iff, addr_eq_inst}
use p2p_live.Rudp.{Endpoint, UserMap}
use p2p_live.Rudp.Endpoints.{inner_of, entry, if_open, if_filled, purge, write_endpoint}

abbrev pub same_key : SocketAddr → ℕ → SocketAddr → ℕ → Bool
same_key a c b d = addr_eq a b && c == d

module _ {K : Type 0} where
  -- No address stands twice in the map, and no channel below one.
  pub record IsUserMap (m : UserMap K) : Type 0 where
    pub keys : IsMap m
    pub inner : (a : SocketAddr) (x : List (ℕ × Endpoint K)) → lookup a m ≡ some x → IsMap x

  pub inner-IsMap : (m : UserMap K) → IsUserMap m → (a : SocketAddr) → IsMap (inner_of (lookup a m))
  inner-IsMap m v a = elim (Option-cases (lookup a m)) [
    | inl out ↦ rw out tt
    | inr (x, at) ↦ rw at (v.inner a x at)
  ]

  pub store-IsUserMap :
      (a : SocketAddr) (x : List (ℕ × Endpoint K)) (m : UserMap K)
      → IsUserMap m
      → IsMap x
      → IsUserMap (insert a x m)
  store-IsUserMap a x m v h = record {
    keys = insert-IsMap a x m v.keys;
    inner = λ b y at. elim (Bool-cases (addr_eq a b)) [
      | inl here ↦ subst IsMap (some_eq (sym (lookup-insert a b x m ∙ rw here refl) ∙ at)) h
      | inr other ↦ v.inner b y (sym (lookup-insert a b x m ∙ rw other refl) ∙ at)
    ];
  }

  filled_lem : (c : ℕ) (x : List (ℕ × Endpoint K)) → and_then (if_filled x) (lookup c) ≡ lookup c x
  filled_lem c [] = refl
  filled_lem c (y ∷ ys) = refl

  pub entry-purge :
      (a : SocketAddr) (c : ℕ) (m : UserMap K)
      → IsUserMap m
      → entry a c (purge m) ≡ and_then (entry a c m) if_open
  unfolding entry purge
  entry-purge a c m v =
      let f : List (ℕ × Endpoint K) → Option (List (ℕ × Endpoint K)) =
        λ inner. if_filled (filter_map if_open inner) in
      let outer = lookup-filter_map f a m v.keys in
      elim (Option-cases (lookup a m)) [
        | inl out ↦ rw (outer, out) refl
        | inr (x, at) ↦
            rw (outer, at)
              (filled_lem c (filter_map if_open x) ∙ lookup-filter_map if_open c x (v.inner a x at))
      ]

  filled_some : (x y : List (ℕ × Endpoint K)) → if_filled x ≡ some y → x ≡ y
  filled_some [] y e = absurd cc
  filled_some (x ∷ xs) y e = some_eq e

  pub purge-IsUserMap : (m : UserMap K) → IsUserMap m → IsUserMap (purge m)
  unfolding purge
  purge-IsUserMap m v =
      let f : List (ℕ × Endpoint K) → Option (List (ℕ × Endpoint K)) =
        λ inner. if_filled (filter_map if_open inner) in
      record {
        keys = filter_map-IsMap f m v.keys;
        inner = λ a x at. elim (Option-cases (lookup a m)) [
          | inl out ↦ absurd (
              none-ne-some
                (ap (λ o. and_then o f) (sym out) ∙ sym (lookup-filter_map f a m v.keys) ∙ at))
          | inr (y, there) ↦
              subst IsMap
                (filled_some (filter_map if_open y) x
                  (ap (λ o. and_then o f) (sym there) ∙ sym (lookup-filter_map f a m v.keys) ∙ at))
                (filter_map-IsMap if_open y (v.inner a y there))
        ];
      }

  entry-insert :
      (a b : SocketAddr) (d : ℕ) (x : List (ℕ × Endpoint K)) (m : UserMap K)
      → entry b d (insert a x m) ≡ (if addr_eq a b then lookup d x else entry b d m)
  unfolding entry
  entry-insert a b d x m = elim (Bool-cases (addr_eq a b)) [
    | inl here ↦ ap (λ o. and_then o (lookup d)) (lookup-insert a b x m) ∙ rw here refl
    | inr other ↦ ap (λ o. and_then o (lookup d)) (lookup-insert a b x m) ∙ rw other refl
  ]

  pub inner_lem :
      (a : SocketAddr) (d : ℕ) (m : UserMap K) → lookup d (inner_of (lookup a m)) ≡ entry a d m
  unfolding entry
  inner_lem a d m = elim (Option-cases (lookup a m)) [
    | inl out ↦ rw out refl
    | inr (x, at) ↦ rw at refl
  ]

  -- A change of one channel, seen at every address and channel.
  pub entry-insert_at :
      (a b : SocketAddr) (c d : ℕ) (o : Option (Endpoint K)) (x : List (ℕ × Endpoint K))
      (m : UserMap K)
      → ((i : ℕ) → lookup i x ≡ (if c == i then o else entry a i m))
      → entry b d (insert a x m) ≡ (if same_key a c b d then o else entry b d m)
  entry-insert_at a b c d o x m h = elim (Bool-cases (addr_eq a b)) [
    | inl here ↦
        let same : a ≡ b = (addr_eq_iff a b).0 here in
        entry-insert a b d x m ∙ rw here (h d ∙ ap (λ z. if c == d then o else entry z d m) same)
    | inr other ↦ entry-insert a b d x m ∙ rw other refl
  ]

  pub entry-write_endpoint :
      (a b : SocketAddr) (c d : ℕ) (e : Endpoint K) (m : UserMap K)
      → entry b d (write_endpoint a c e m) ≡ (if same_key a c b d then some e else entry b d m)
  unfolding write_endpoint
  entry-write_endpoint a b c d e m =
      entry-insert_at a b c d (some e) (insert c e (inner_of (lookup a m))) m (λ i.
        lookup-insert c i e (inner_of (lookup a m))
        ∙ ap (λ z. if c == i then some e else z) (inner_lem a i m))

  pub write_endpoint-IsUserMap :
      (a : SocketAddr) (c : ℕ) (e : Endpoint K) (m : UserMap K)
      → IsUserMap m
      → IsUserMap (write_endpoint a c e m)
  unfolding write_endpoint
  write_endpoint-IsUserMap a c e m v =
      store-IsUserMap a (insert c e (inner_of (lookup a m))) m v
        (insert-IsMap c e (inner_of (lookup a m)) (inner-IsMap m v a))
