-- ===== src/Socket/Filling.antt =====
-- `aread` fills the buffer it is given.
use p2p_live.Prelude.{
  ℕ, zero, suc, ◌-◌, ◌≤◌, ◌≡◌, refl, sym, subst, arith, false, List, [], ◌∷◌, ◌++◌, Bool-cases, inl,
  inr, ◌≢◌, length, take, length-append, length-take,
}
use p2p_live.Socket.{
  ok, cont, closed, timeout, failed, eintr, epipe, would_block, conn_refused, conn_reset,
  other_error, RecvAnswer, received, recv_error, returned, Loop, through, early, broken,
  SocketState, after_loop, finish_call, aread_loop, aread, await_next, await_aread,
}
use p2p_live.Socket.Transfer.{Outcome-cases}

aread_loop_room :
    (answers : List RecvAnswer) (room : ℕ)
    → (length (aread_loop answers room).bytes ≤ room)
      × ((aread_loop answers room).loop ≡ through ok
          → length (aread_loop answers room).bytes ≡ room)
unfolding aread_loop
aread_loop_room answers zero = (omega arith, λ e. refl)
aread_loop_room [] (suc room) = (omega arith, λ e. absurd cc)
aread_loop_room (received [] ∷ answers) (suc room) = (omega arith, λ e. absurd cc)
aread_loop_room (received (x ∷ xs) ∷ answers) (suc room) =
    let (at_most, all) = aread_loop_room answers (room - length xs) in
    let head = take room xs in
    let n = length-append head (aread_loop answers (room - length xs)).bytes in
    let k = length-take room xs in (omega arith, λ e. let a = all e in omega arith)
aread_loop_room (recv_error eintr ∷ answers) (suc room) = aread_loop_room answers (suc room)
aread_loop_room (recv_error epipe ∷ answers) (suc room) = (omega arith, λ e. absurd cc)
aread_loop_room (recv_error would_block ∷ answers) (suc room) = (omega arith, λ e. absurd cc)
aread_loop_room (recv_error conn_refused ∷ answers) (suc room) = (omega arith, λ e. absurd cc)
aread_loop_room (recv_error conn_reset ∷ answers) (suc room) = (omega arith, λ e. absurd cc)
aread_loop_room (recv_error other_error ∷ answers) (suc room) = (omega arith, λ e. absurd cc)

aread_loop_early : (answers : List RecvAnswer) (room : ℕ) → (aread_loop answers room).loop ≢ early
unfolding aread_loop
aread_loop_early answers zero e = cc
aread_loop_early [] (suc room) e = cc
aread_loop_early (received [] ∷ answers) (suc room) e = cc
aread_loop_early (received (x ∷ xs) ∷ answers) (suc room) e =
    aread_loop_early answers (room - length xs) e
aread_loop_early (recv_error eintr ∷ answers) (suc room) e = aread_loop_early answers (suc room) e
aread_loop_early (recv_error epipe ∷ answers) (suc room) e = cc
aread_loop_early (recv_error would_block ∷ answers) (suc room) e = cc
aread_loop_early (recv_error conn_refused ∷ answers) (suc room) e = cc
aread_loop_early (recv_error conn_reset ∷ answers) (suc room) e = cc
aread_loop_early (recv_error other_error ∷ answers) (suc room) e = cc

after_loop_ok :
    (times : ℕ) (s : SocketState) (l : Loop)
    → (after_loop times s l).0 ≡ returned ok
    → l ≡ through ok
after_loop_ok times s (through ok) e = refl
after_loop_ok times s (through cont) e = absurd cc
after_loop_ok times s (through closed) e = absurd cc
after_loop_ok times s (through timeout) e = absurd cc
after_loop_ok times s (through failed) e = absurd cc
after_loop_ok times s early e = absurd cc
after_loop_ok times s (broken t) e = absurd cc

aread_room :
    (times : ℕ) (answers : List RecvAnswer) (room : ℕ) (s : SocketState)
    → (length (aread false times answers room s).bytes ≤ room)
      × ((aread false times answers room s).outcome ≡ returned ok
          → length (aread false times answers room s).bytes ≡ room)
unfolding aread
aread_room times answers room s = elim (Bool-cases s.is_connection_closed) [
  | inl shut ↦ rw shut (omega arith, λ e. absurd cc)
  | inr open_yet ↦
      let whole : aread false times answers room s ≡ finish_call times s (aread_loop answers room) =
        ground arith in
      let (at_most, all) = aread_loop_room answers room in
      subst (λ c. (length c.bytes ≤ room) × (c.outcome ≡ returned ok → length c.bytes ≡ room))
        (sym whole) (at_most, λ e. all (after_loop_ok times s (aread_loop answers room).loop e))
]

-- However often the coroutine is suspended, `aread` never takes more bytes than the buffer has room
-- for, and where it gives `ok` the buffer is full.
pub await_aread_lem :
    (calls : List (List RecvAnswer)) (times room : ℕ) (s : SocketState)
    → let c = await_aread times calls room s in
      (length c.bytes ≤ room) × (c.outcome ≡ returned ok → length c.bytes ≡ room)
unfolding await_aread
await_aread_lem [] times room s = (omega arith, λ e. absurd cc)
await_aread_lem (a ∷ more) times room s =
    let c = aread false times a room s in
    let next = await_aread (suc times) more (room - length c.bytes) c.state in
    let (at_most, all) = aread_room times a room s in
    let (fits, fills) = await_aread_lem more (suc times) (room - length c.bytes) c.state in
    elim (Outcome-cases c.outcome) [
      | inl again ↦
          let e : await_next c next ≡ record next { bytes = c.bytes ++ next.bytes } =
            ground (arith, again) in
          let n = length-append c.bytes next.bytes in
          rw e (omega arith, λ fine. let k = fills fine in omega arith)
      | inr ends ↦ rw (ends c next refl) (at_most, all)
    ]
