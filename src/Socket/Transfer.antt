-- ===== src/Socket/Transfer.antt =====
-- What a transfer over a socket does to the bytes, the event and the flag.
use p2p_live.Prelude.{
  ℕ, zero, suc, ◌≡◌, refl, sym, ap, ◌∙◌, arith, false, List, [], ◌∷◌, ◌++◌, Bool-cases, inl, inr,
  ◌⊎◌, take, drop, take-append-drop,
}
use mathlib.Core.List.{append_assoc, append-nil}
use p2p_live.Socket.{
  ok, eintr, epipe, would_block, conn_refused, conn_reset, other_error, SendAnswer, sent,
  send_error, Outcome, returned, suspended, threw, awrite_loop, SocketState, Call, after_loop,
  finish_call, awrite, await_next, await_awrite,
}

-- No byte is lost, doubled or moved by the loop.
awrite_loop_split :
    (answers : List SendAnswer) (content : List ℕ)
    → (awrite_loop answers content).bytes ++ (awrite_loop answers content).left ≡ content
unfolding awrite_loop
awrite_loop_split answers [] = refl
awrite_loop_split [] (x ∷ xs) = refl
awrite_loop_split (sent zero ∷ answers) (x ∷ xs) = refl
awrite_loop_split (sent (suc n) ∷ answers) (x ∷ xs) =
    let m = awrite_loop answers (drop n xs) in
    ap (λ t. x ∷ t)
      (append_assoc (take n xs) m.bytes m.left
        ∙ ap (λ t. take n xs ++ t) (awrite_loop_split answers (drop n xs))
        ∙ take-append-drop n xs)
awrite_loop_split (send_error eintr ∷ answers) (x ∷ xs) = awrite_loop_split answers (x ∷ xs)
awrite_loop_split (send_error epipe ∷ answers) (x ∷ xs) = refl
awrite_loop_split (send_error would_block ∷ answers) (x ∷ xs) = refl
awrite_loop_split (send_error conn_refused ∷ answers) (x ∷ xs) = refl
awrite_loop_split (send_error conn_reset ∷ answers) (x ∷ xs) = refl
awrite_loop_split (send_error other_error ∷ answers) (x ∷ xs) = refl

-- The call ends with `ok` only where nothing is left.
awrite_loop_ok :
    (times : ℕ) (s : SocketState) (answers : List SendAnswer) (content : List ℕ)
    → (after_loop times s (awrite_loop answers content).loop).0 ≡ returned ok
    → (awrite_loop answers content).left ≡ []
unfolding awrite_loop
awrite_loop_ok times s answers [] e = refl
awrite_loop_ok times s [] (x ∷ xs) e = absurd cc
awrite_loop_ok times s (sent zero ∷ answers) (x ∷ xs) e = absurd cc
awrite_loop_ok times s (sent (suc n) ∷ answers) (x ∷ xs) e =
    awrite_loop_ok times s answers (drop n xs) e
awrite_loop_ok times s (send_error eintr ∷ answers) (x ∷ xs) e =
    awrite_loop_ok times s answers (x ∷ xs) e
awrite_loop_ok times s (send_error epipe ∷ answers) (x ∷ xs) e = absurd cc
awrite_loop_ok times s (send_error would_block ∷ answers) (x ∷ xs) e = absurd cc
awrite_loop_ok times s (send_error conn_refused ∷ answers) (x ∷ xs) e = absurd cc
awrite_loop_ok times s (send_error conn_reset ∷ answers) (x ∷ xs) e = absurd cc
awrite_loop_ok times s (send_error other_error ∷ answers) (x ∷ xs) e = absurd cc

-- A call, whatever it ends with, splits the content; `ok` means that all of it went.
awrite_split :
    (times : ℕ) (answers : List SendAnswer) (content : List ℕ) (s : SocketState)
    → (awrite false times answers content s).bytes ++ (awrite false times answers content s).left
      ≡ content
unfolding awrite
awrite_split times answers content s = ground (arith, awrite_loop_split answers content)

awrite_ok :
    (times : ℕ) (answers : List SendAnswer) (content : List ℕ) (s : SocketState)
    → (awrite false times answers content s).outcome ≡ returned ok
    → (awrite false times answers content s).left ≡ []
unfolding awrite
awrite_ok times answers content s e = elim (Bool-cases s.is_connection_closed) [
  | inl shut ↦ ground arith
  | inr open_yet ↦
      let whole : awrite false times answers content s
          ≡ finish_call times s (awrite_loop answers content) =
        ground arith in
      ap (λ z. z.left) whole
      ∙ awrite_loop_ok times s answers content (sym (ap (λ z. z.outcome) whole) ∙ e)
]

pub Outcome-cases :
    (o : Outcome) → (o ≡ suspended) ⊎ ((c next : Call) → c.outcome ≡ o → await_next c next ≡ c)
Outcome-cases suspended = inl refl
Outcome-cases (returned r) = inr (λ c next e. ground (arith, e))
Outcome-cases (threw t) = inr (λ c next e. ground (arith, e))

await_next_lem :
    (c next : Call) (content : List ℕ)
    → c.bytes ++ c.left ≡ content
    → (c.outcome ≡ returned ok → c.left ≡ [])
    → next.bytes ++ next.left ≡ c.left
    → (next.outcome ≡ returned ok → next.bytes ≡ c.left)
    → ((await_next c next).bytes ++ (await_next c next).left ≡ content)
      × ((await_next c next).outcome ≡ returned ok → (await_next c next).bytes ≡ content)
await_next_lem c next content split done rest all = elim (Outcome-cases c.outcome) [
  | inl again ↦
      let e : await_next c next ≡ record next { bytes = c.bytes ++ next.bytes } =
        ground (arith, again) in
      rw e (
        append_assoc c.bytes next.bytes next.left ∙ ap (λ t. c.bytes ++ t) rest ∙ split,
        λ fine. ap (λ t. c.bytes ++ t) (all fine) ∙ split,
      )
  | inr ends ↦
      rw (ends c next refl)
        (split, λ fine. sym (append-nil c.bytes) ∙ ap (λ t. c.bytes ++ t) (sym (done fine)) ∙ split)
]

-- However the kernel cuts the stream and however often the coroutine is suspended, what went out and
-- what is left make up the content, in order; and where `awrite` gives `ok`, all of it went out.
pub await_awrite_lem :
    (calls : List (List SendAnswer)) (times : ℕ) (content : List ℕ) (s : SocketState)
    → let c = await_awrite times calls content s in
      (c.bytes ++ c.left ≡ content) × ((c.outcome ≡ returned ok) → c.bytes ≡ content)
unfolding await_awrite
await_awrite_lem [] times content s = (refl, λ e. absurd cc)
await_awrite_lem (a ∷ more) times content s =
    let c = awrite false times a content s in
    let (rest, all) = await_awrite_lem more (suc times) c.left c.state in
    await_next_lem c (await_awrite (suc times) more c.left c.state) content
      (awrite_split times a content s) (awrite_ok times a content s) rest all
