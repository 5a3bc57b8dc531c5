-- ===== src/Lock/Exclusion.antt =====
-- Readers and writers exclude each other, whatever the order of the threads' accesses.
use p2p_live.Prelude.{
  ℕ, zero, suc, ◌+◌, ◌*◌, ◌≤◌, ◌<◌, ◌≡◌, ◌⊎◌, inl, inr, refl, ap, sym, subst, arith, Bool, some,
  List, [], ◌∷◌, get_elem?, set, replicate, length, length-set, length-replicate, All, All-set,
  All-get_elem?, Option-cases, some_eq,
}
use p2p_live.Lock.{
  Phase, idle, read_wait, read_load, reading, unread_load, write_wait, write_try, writing, read_try,
  unread_try, RwLock, write_bit, advance, step_thread,
}

-- A thread holds the read lock from the exchange in `rlock` to the one in `runlock`.
abbrev pub reads : Phase → ℕ
reads reading = 1
reads unread_load = 1
reads (unread_try old) = 1
reads _ = 0

abbrev pub writes : Phase → ℕ
writes writing = 1
writes _ = 0

abbrev pub count : (Phase → ℕ) → List Phase → ℕ
count f [] = 0
count f (x ∷ xs) = f x + count f xs

-- What a thread remembers of `flag` has no write bit.
abbrev IsMasked : Phase → Type 0
IsMasked (read_try old) = old < write_bit
IsMasked _ = Unit {0}

record IsCounted (s : RwLock) : Type 0 where
  flag_is : s.flag ≡ count reads s.threads + write_bit * count writes s.threads
  excluded :
      (count writes s.threads ≡ 0) ⊎ ((count writes s.threads ≡ 1) × (count reads s.threads ≡ 0))
  few : length s.threads < write_bit
  masked : All IsMasked s.threads

count-set :
    (f : Phase → ℕ) (xs : List Phase) (i : ℕ) (a b : Phase)
    → get_elem? xs i ≡ some a
    → count f (set xs i b) + f a ≡ count f xs + f b
count-set f [] i a b e = absurd cc
count-set f (x ∷ xs) zero a b e = let k : f x ≡ f a = ap f (some_eq e) in omega arith
count-set f (x ∷ xs) (suc i) a b e = omega (arith, count-set f xs i a b e)

reads_le : (x : Phase) → reads x ≤ 1
reads_le x = ground arith

count-length : (xs : List Phase) → count reads xs ≤ length xs
count-length [] = omega arith
count-length (x ∷ xs) = omega (arith, count-length xs, reads_le x)

-- One access by a thread in any phase, seen through the counts.
record Access (flag r w : ℕ) (a : Phase) (next : ℕ × Phase) : Type 0 where
  keeps :
      (r' w' : ℕ)
      → r' + reads a ≡ r + reads next.1
      → w' + writes a ≡ w + writes next.1
      → (next.0 ≡ r' + write_bit * w') × ((w' ≡ 0) ⊎ ((w' ≡ 1) × (r' ≡ 0)))
  masks : IsMasked next.1

module _ (wants : Bool) (flag r w : ℕ) (is : flag ≡ r + write_bit * w)
    (ex : (w ≡ 0) ⊎ ((w ≡ 1) × (r ≡ 0))) (few : r < write_bit) where
  access :
      (a : Phase)
      → reads a ≤ r
      → writes a ≤ w
      → IsMasked a
      → Access flag r w a (advance wants flag a)
  unfolding advance
  access idle rr ww m = record { keeps = λ r' w' p q. ground arith; masks = ground arith }
  access read_wait rr ww m = record { keeps = λ r' w' p q. ground arith; masks = ground arith }
  access read_load rr ww m = record { keeps = λ r' w' p q. ground arith; masks = omega arith }
  access (read_try old) rr ww m = record { keeps = λ r' w' p q. ground arith; masks = ground arith }
  access reading rr ww m = record { keeps = λ r' w' p q. ground arith; masks = tt }
  access unread_load rr ww m = record { keeps = λ r' w' p q. ground arith; masks = tt }
  access (unread_try old) rr ww m = record {
    keeps = λ r' w' p q. ground arith;
    masks = ground arith;
  }
  access write_wait rr ww m = record { keeps = λ r' w' p q. ground arith; masks = ground arith }
  access write_try rr ww m = record { keeps = λ r' w' p q. ground arith; masks = ground arith }
  access writing rr ww m = record { keeps = λ r' w' p q. ground arith; masks = tt }

count-get_elem? :
    (f : Phase → ℕ) (xs : List Phase) (i : ℕ) (a : Phase)
    → get_elem? xs i ≡ some a
    → f a ≤ count f xs
count-get_elem? f [] i a e = absurd cc
count-get_elem? f (x ∷ xs) zero a e = let k : f x ≡ f a = ap f (some_eq e) in omega arith
count-get_elem? f (x ∷ xs) (suc i) a e = omega (arith, count-get_elem? f xs i a e)

stepped :
    (wants : Bool) (i : ℕ) (s : RwLock) (a : Phase)
    → get_elem? s.threads i ≡ some a
    → step_thread wants i s ≡ record {
      flag = (advance wants s.flag a).0;
      threads = set s.threads i (advance wants s.flag a).1;
    }
unfolding step_thread
stepped wants i s a at = ground (arith, at)

step_thread-IsCounted :
    (wants : Bool) (i : ℕ) (s : RwLock) → IsCounted s → IsCounted (step_thread wants i s)
unfolding step_thread
step_thread-IsCounted wants i s v = elim (Option-cases (get_elem? s.threads i)) [
  | inl out ↦ rw (step_thread, out) v
  | inr (a, at) ↦
      let r = count reads s.threads in
      let w = count writes s.threads in
      let next = advance wants s.flag a in
      let k =
        access wants s.flag r w v.flag_is v.excluded (omega (arith, count-length s.threads, v.few))
          a (count-get_elem? reads s.threads i a at) (count-get_elem? writes s.threads i a at)
          (All-get_elem? IsMasked s.threads i a v.masked at) in
      let (flag, apart) =
        k.keeps (count reads (set s.threads i next.1)) (count writes (set s.threads i next.1))
          (count-set reads s.threads i a next.1 at) (count-set writes s.threads i a next.1 at) in
      let after : IsCounted (record { flag = next.0; threads = set s.threads i next.1 }) = record {
        flag_is = flag;
        excluded = apart;
        few = omega (arith, length-set s.threads i next.1, v.few);
        masked = All-set IsMasked s.threads i next.1 k.masks v.masked;
      } in
      subst IsCounted (sym (stepped wants i s a at)) after
]

-- Some order of the threads' accesses: each names the thread, and what it wants if it is idle.
unfoldable pub run_threads : List (Bool × ℕ) → RwLock → RwLock
unfolding step_thread
run_threads [] s = s
run_threads ((wants, i) ∷ rest) s = run_threads rest (step_thread wants i s)

-- `rw_lock_t()` and `n` threads that have not begun.
abbrev pub new_lock : ℕ → RwLock
new_lock n = record { flag = 0; threads = replicate n idle }

new_threads :
    (n : ℕ)
    → (count reads (replicate n idle) ≡ 0)
      × (count writes (replicate n idle) ≡ 0)
      × All IsMasked (replicate n idle)
new_threads zero = (refl, refl, tt)
new_threads (suc n) = let (r, w, m) = new_threads n in (omega arith, omega arith, (tt, m))

run_threads-IsCounted :
    (order : List (Bool × ℕ)) (s : RwLock) → IsCounted s → IsCounted (run_threads order s)
unfolding run_threads
run_threads-IsCounted [] s v = v
run_threads-IsCounted ((wants, i) ∷ rest) s v =
    run_threads-IsCounted rest (step_thread wants i s) (step_thread-IsCounted wants i s v)

-- In every interleaving of fewer than 2 ^ 63 threads at most one thread has the write lock, and while
-- one has it none has the read lock.
pub run_threads_lem :
    (n : ℕ) (order : List (Bool × ℕ))
    → n < write_bit
    → let threads = (run_threads order (new_lock n)).threads in
      (count writes threads ≡ 0) ⊎ ((count writes threads ≡ 1) × (count reads threads ≡ 0))
run_threads_lem n order few =
    let (r, w, m) = new_threads n in
    let first : IsCounted (new_lock n) = record {
      flag_is = omega arith;
      excluded = inl w;
      few = omega (arith, length-replicate n idle);
      masked = m;
    } in
    (run_threads-IsCounted order (new_lock n) first).excluded
