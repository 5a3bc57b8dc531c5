-- ===== src/Tcp/Heads.antt =====
-- `conn_aread_packet_head` under `co::await`: each call makes a buffer of its own over the head.
use p2p_live.Prelude.{
  ℕ, zero, suc, ◌-◌, ◌<◌, ◌≤◌, ◌≡◌, refl, ap, ◌∙◌, arith, false, List, [], ◌∷◌, ◌++◌, take_all,
  length, take,
}
use mathlib.Core.List.{append-nil}
use p2p_live.Socket.{
  Moved, IoResult, ok, cont, returned, suspended, threw, RecvAnswer, received, Call, SocketState,
  through, finish_call, aread_loop, aread, await_next, await_aread,
}

-- The call that ends the wait, or one that has read nothing yet.
abbrev pub await_last : Call → Call → Call
await_last c next = elim c.outcome [ suspended ↦ next | returned r ↦ c | threw t ↦ c ]

-- `co::await(conn_aread_packet_head, ...)`: a call that is suspended leaves its buffer, and how much
-- of the head it has filled, behind.
unfoldable pub await_head : ℕ → List (List RecvAnswer) → SocketState → Call
unfolding aread
await_head times [] s = record { outcome = suspended; bytes = []; left = []; state = s }
await_head times (a ∷ more) s =
    let c = aread false times a 4 s in
    let next = await_head (suc times) more c.state in await_last c next

abbrev moved : List ℕ → IoResult → Moved
moved xs r = record { bytes = xs; left = []; loop = through r }

blocks : (n : ℕ) → 0 < n → aread_loop [] n ≡ moved [] cont
unfolding aread_loop
blocks zero h = absurd (omega arith)
blocks (suc n) h = refl

ends : (n : ℕ) → n ≡ 0 → aread_loop [] n ≡ moved [] ok
unfolding aread_loop
ends n h = rw h refl

aread_loop_short :
    (room : ℕ) (xs : List ℕ)
    → 0 < length xs
    → length xs < room
    → aread_loop (received xs ∷ []) room ≡ moved xs cont
unfolding aread_loop
aread_loop_short zero xs k l = absurd (omega arith)
aread_loop_short (suc room) [] k l = absurd (omega arith)
aread_loop_short (suc room) (x ∷ xs) k l =
    rw (blocks (room - length xs) (omega arith), take_all room xs (omega arith), append-nil xs) refl

aread_loop_full :
    (room : ℕ) (ys : List ℕ)
    → 0 < room
    → room ≤ length ys
    → aread_loop (received ys ∷ []) room ≡ moved (take room ys) ok
unfolding aread_loop
aread_loop_full zero ys k l = absurd (omega arith)
aread_loop_full (suc room) [] k l = absurd (omega arith)
aread_loop_full (suc room) (y ∷ ys) k l =
    rw (ends (room - length ys) (omega arith), append-nil (take room ys)) refl

aread_open :
    (times room : ℕ) (answers : List RecvAnswer) (m : Moved) (s : SocketState)
    → s.is_connection_closed ≡ false
    → aread_loop answers room ≡ m
    → aread false times answers room s ≡ finish_call times s m
unfolding aread
aread_open times room answers m s h e = rw (h, e) refl

still_open :
    (times : ℕ) (xs : List ℕ) (s : SocketState)
    → s.is_connection_closed ≡ false
    → (finish_call times s (moved xs cont)).state.is_connection_closed ≡ false
still_open times xs s h = ground (arith, h)

-- The head of a packet arrives in two pieces, fewer than four bytes first and four or more later. A
-- read into one buffer gives the first four of both; `conn_aread_packet_head` gives the first four of
-- the second piece, and the first piece is lost.
pub await_head_lem :
    (xs ys : List ℕ) (s : SocketState)
    → s.is_connection_closed ≡ false
    → 0 < length xs
    → length xs < 4
    → 4 ≤ length ys
    → let calls = (received xs ∷ []) ∷ (received ys ∷ []) ∷ [] in
      ((await_head 0 calls s).outcome ≡ returned ok)
      × ((await_head 0 calls s).bytes ≡ take 4 ys)
      × ((await_aread 0 calls 4 s).outcome ≡ returned ok)
      × ((await_aread 0 calls 4 s).bytes ≡ xs ++ take (4 - length xs) ys)
unfolding await_head await_aread
await_head_lem xs ys s h k l m =
    let c = finish_call 0 s (moved xs cont) in
    let first : aread false 0 (received xs ∷ []) 4 s ≡ c =
      aread_open 0 4 (received xs ∷ []) (moved xs cont) s h (aread_loop_short 4 xs k l) in
    let shut = still_open 0 xs s h in
    let second : aread false 1 (received ys ∷ []) 4 c.state
        ≡ finish_call 1 c.state (moved (take 4 ys) ok) =
      aread_open 1 4 (received ys ∷ []) (moved (take 4 ys) ok) c.state shut
        (aread_loop_full 4 ys (omega arith) m) in
    let n = 4 - length xs in
    let rest : aread false 1 (received ys ∷ []) n c.state
        ≡ finish_call 1 c.state (moved (take n ys) ok) =
      aread_open 1 n (received ys ∷ []) (moved (take n ys) ok) c.state shut
        (aread_loop_full n ys (omega arith) (omega arith)) in
    let head : await_head 0 ((received xs ∷ []) ∷ (received ys ∷ []) ∷ []) s
        ≡ finish_call 1 c.state (moved (take 4 ys) ok) =
      ap (λ x. await_last x (await_head 1 ((received ys ∷ []) ∷ []) x.state)) first
      ∙ ap (λ x. await_last x (await_head 2 [] x.state)) second in
    let whole : await_aread 0 ((received xs ∷ []) ∷ (received ys ∷ []) ∷ []) 4 s
        ≡ await_next c (finish_call 1 c.state (moved (take n ys) ok)) =
      ap (λ x. await_next x (await_aread 1 ((received ys ∷ []) ∷ []) (4 - length x.bytes) x.state))
        first
      ∙ ap (λ x. await_next c (await_next x (await_aread 2 [] (n - length x.bytes) x.state)))
          rest in
    (
      ap (λ x. x.outcome) head,
      ap (λ x. x.bytes) head,
      ap (λ x. x.outcome) whole,
      ap (λ x. x.bytes) whole,
    )
