-- ===== src/Prelude/Assoc.antt =====
-- std::unordered_map and std::map as association lists over keys with a Boolean equality.
use Prim.Native.Nat.{ℕ}
use mathlib.Core.Path.{◌≡◌, refl, ◌∙◌}
use mathlib.Core.Logic.{◌↔◌, inl, inr}
use mathlib.Core.Bool.{Bool, true, false}
use mathlib.Core.List.{List, [], ◌∷◌}
use mathlib.Core.Option.{Option, none, some}
use native.Mathlib.Omega.{arith}
use p2p_live.Prelude.Tests.{if◌then◌else◌, Bool-cases, Option-cases, ◌==◌, ==_iff}

pub record Eq {ℓ} (A : Type ℓ) : Type ℓ where
  pub beq : A → A → Bool
  pub beq_iff : (a b : A) → (beq a b ≡ true) ↔ (a ≡ b)

instance abbrev pub nat_eq : Eq ℕ
nat_eq = record { beq = ◌==◌; beq_iff = ==_iff }

pub beq_refl {ℓ} : {K : Type ℓ} ⦃e : Eq K⦄ (a : K) → e.beq a a ≡ true
beq_refl ⦃e⦄ a = (e.beq_iff a a).1 refl

beq_sym {ℓ} : {K : Type ℓ} ⦃e : Eq K⦄ (k j : K) → e.beq j k ≡ false → e.beq k j ≡ false
beq_sym ⦃e⦄ k j h = ground (arith, e.beq_iff k j, e.beq_iff j k)

module _ {ℓ κ} {K : Type ℓ} {V : Type κ} ⦃e : Eq K⦄ where
  -- `find`
  abbrev pub lookup : K → List (K × V) → Option V
  lookup k [] = none
  lookup k ((j, v) ∷ m) = if e.beq j k then some v else lookup k m

  -- `m[k] = v`
  abbrev pub insert : K → V → List (K × V) → List (K × V)
  insert k v [] = (k, v) ∷ []
  insert k v ((j, w) ∷ m) = if e.beq j k then (j, v) ∷ m else (j, w) ∷ insert k v m

  -- `m.emplace(k, v)`, which leaves a key that is there alone
  abbrev pub emplace : K → V → List (K × V) → List (K × V)
  emplace k v [] = (k, v) ∷ []
  emplace k v ((j, w) ∷ m) = if e.beq j k then (j, w) ∷ m else (j, w) ∷ emplace k v m

  -- `m.erase(k)`
  abbrev pub erase : K → List (K × V) → List (K × V)
  erase k [] = []
  erase k ((j, w) ∷ m) = if e.beq j k then erase k m else (j, w) ∷ erase k m

  pub lookup-insert :
      (k j : K) (v : V) (m : List (K × V))
      → lookup j (insert k v m) ≡ (if e.beq k j then some v else lookup j m)
  lookup-insert k j v [] = refl
  lookup-insert k j v ((i, w) ∷ m) =
      ground (arith, e.beq_iff k j, e.beq_iff i k, e.beq_iff i j, lookup-insert k j v m)

  pub lookup-erase :
      (k j : K) (m : List (K × V)) → lookup j (erase k m) ≡ (if e.beq k j then none else lookup j m)
  lookup-erase k j [] = ground arith
  lookup-erase k j ((i, w) ∷ m) =
      ground (arith, e.beq_iff k j, e.beq_iff i k, e.beq_iff i j, lookup-erase k j m)

  pub lookup-emplace_new :
      (k j : K) (v : V) (m : List (K × V))
      → lookup k m ≡ none
      → lookup j (emplace k v m) ≡ (if e.beq k j then some v else lookup j m)
  lookup-emplace_new k j v [] h = refl
  lookup-emplace_new k j v ((i, w) ∷ m) h =
      ground (arith, e.beq_iff k j, e.beq_iff i k, e.beq_iff i j, lookup-emplace_new k j v m)

  pub emplace_old : (k : K) (v w : V) (m : List (K × V)) → lookup k m ≡ some w → emplace k v m ≡ m
  emplace_old k v w [] h = ground arith
  emplace_old k v w ((i, u) ∷ m) h = elim (Bool-cases (e.beq i k)) [
    | inl hit ↦ rw hit
    | inr miss ↦ rw (miss, emplace_old k v w m (rw miss at h))
  ]

abbrev pub with_entry {ℓ κ} : {K : Type ℓ} {V : Type κ} → K → Option V → List (K × V) → List (K × V)
with_entry j none m = m
with_entry j (some v) m = (j, v) ∷ m

abbrev pub and_then {ℓ κ} : {A : Type ℓ} {B : Type κ} → Option A → (A → Option B) → Option B
and_then none f = none
and_then (some a) f = f a

-- The loop over a map that changes or erases each entry.
abbrev pub filter_map {ℓ κ} :
    {K : Type ℓ} {V : Type κ} → (V → Option V) → List (K × V) → List (K × V)
filter_map f [] = []
filter_map f ((j, v) ∷ m) = with_entry j (f v) (filter_map f m)

module _ {ℓ κ} {K : Type ℓ} {V : Type κ} ⦃e : Eq K⦄ where
  -- No key stands twice.
  abbrev pub IsMap : List (K × V) → Type κ
  IsMap [] = Unit
  IsMap ((j, v) ∷ m) = (lookup j m ≡ none) × IsMap m

  pub lookup-filter_map-none :
      (f : V → Option V) (k : K) (m : List (K × V))
      → lookup k m ≡ none
      → lookup k (filter_map f m) ≡ none
  lookup-filter_map-none f k [] h = refl
  lookup-filter_map-none f k ((j, v) ∷ m) h = elim (Option-cases (f v)) [
    | inl out ↦ ground (arith, out, lookup-filter_map-none f k m)
    | inr (w, kept) ↦ ground (arith, kept, lookup-filter_map-none f k m)
  ]

  pub lookup-filter_map :
      (f : V → Option V) (k : K) (m : List (K × V))
      → IsMap m
      → lookup k (filter_map f m) ≡ and_then (lookup k m) f
  lookup-filter_map f k [] h = refl
  lookup-filter_map f k ((j, v) ∷ m) h =
      let rest = lookup-filter_map f k m h.1 in
      let gone = lookup-filter_map-none f k m in
      elim (Option-cases (f v)) [
        | inl out ↦ ground (arith, out, rest, gone, e.beq_iff j k, h.0)
        | inr (w, kept) ↦ ground (arith, kept, rest)
      ]

  pub filter_map-IsMap : (f : V → Option V) (m : List (K × V)) → IsMap m → IsMap (filter_map f m)
  filter_map-IsMap f [] h = tt
  filter_map-IsMap f ((j, v) ∷ m) h = elim (Option-cases (f v)) [
    | inl out ↦ rw out (filter_map-IsMap f m h.1)
    | inr (w, kept) ↦ rw kept (lookup-filter_map-none f j m h.0, filter_map-IsMap f m h.1)
  ]

  pub insert-IsMap : (k : K) (v : V) (m : List (K × V)) → IsMap m → IsMap (insert k v m)
  insert-IsMap k v [] h = (refl, tt)
  insert-IsMap k v ((j, w) ∷ m) h =
      ground (arith, e.beq_iff k j, e.beq_iff j k, insert-IsMap k v m h.1, lookup-insert k j v m)

  pub lookup-emplace_ne :
      (k j : K) (v : V) (m : List (K × V))
      → e.beq k j ≡ false
      → lookup j (emplace k v m) ≡ lookup j m
  lookup-emplace_ne k j v [] h = ground arith
  lookup-emplace_ne k j v ((i, w) ∷ m) h =
      ground (arith, e.beq_iff k j, e.beq_iff i k, e.beq_iff i j, lookup-emplace_ne k j v m h)

  pub emplace-IsMap : (k : K) (v : V) (m : List (K × V)) → IsMap m → IsMap (emplace k v m)
  emplace-IsMap k v [] h = (refl, tt)
  emplace-IsMap k v ((j, w) ∷ m) h = elim (Bool-cases (e.beq j k)) [
    | inl hit ↦ rw hit h
    | inr miss ↦
        rw miss (lookup-emplace_ne k j v m (beq_sym k j miss) ∙ h.0, emplace-IsMap k v m h.1)
  ]
