-- ===== src/Socket/Events.antt =====
-- The event that a socket asks for while a coroutine waits for it.
use p2p_live.Prelude.{
  ℕ, ◌≡◌, refl, sym, subst, arith, Bool, true, false, List, Bool-cases, inl, inr, ltb,
}
use p2p_live.Socket.{
  ok, cont, closed, timeout, failed, SendAnswer, Outcome, returned, suspended, threw, Loop, through,
  early, broken, awrite_loop, SocketState, after_loop, finish_call, awrite,
}

-- What the event is after each way to end, where it was `was` before the call.
abbrev pub IsTidy : (was : Bool) → Outcome → Bool → Type 0
IsTidy was suspended r = r ≡ true
IsTidy was (returned cont) r = r ≡ was
IsTidy was (returned _) r = r ≡ false
IsTidy was (threw t) r = r ≡ was

after_loop-IsTidy :
    (times : ℕ) (s : SocketState) (l : Loop)
    → s.registered ≡ ltb 0 times
    → IsTidy s.registered (after_loop times s l).0 (after_loop times s l).1.registered
after_loop-IsTidy times s (through ok) h = ground arith
after_loop-IsTidy times s (through cont) h = ground arith
after_loop-IsTidy times s (through closed) h = ground arith
after_loop-IsTidy times s (through timeout) h = ground arith
after_loop-IsTidy times s (through failed) h = ground arith
after_loop-IsTidy times s early h = refl
after_loop-IsTidy times s (broken t) h = refl

-- Where the event is asked for at the start of every call but the first, after a call it is asked
-- for if the coroutine is suspended, not asked for if the call returns a result other than `cont`,
-- and left as it was before the call if the call returns `cont` or throws.
pub awrite-IsTidy :
    (is_stop : Bool) (times : ℕ) (answers : List SendAnswer) (content : List ℕ) (s : SocketState)
    → s.registered ≡ ltb 0 times
    → let c = awrite is_stop times answers content s in
      IsTidy s.registered c.outcome c.state.registered
unfolding awrite
awrite-IsTidy true times answers content s h = ground arith
awrite-IsTidy false times answers content s h = elim (Bool-cases s.is_connection_closed) [
  | inl shut ↦ rw shut refl
  | inr open_yet ↦
      let whole : awrite false times answers content s
          ≡ finish_call times s (awrite_loop answers content) =
        ground arith in
      subst (λ c. IsTidy s.registered c.outcome c.state.registered) (sym whole)
        (after_loop-IsTidy times s (awrite_loop answers content).loop h)
]
