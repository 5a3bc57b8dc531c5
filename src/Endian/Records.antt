-- ===== src/Endian/Records.antt =====
-- Structs through a buffer: `save_to` on one side, `cast_to` on the other.
use p2p_live.Prelude.{ℕ, ◌≤◌, ◌≡◌, ap, ◌∙◌, sym, arith, true, some, List, length, le→ltb}
use p2p_live.Buffer.Memory.{Heap}
use p2p_live.Buffer.{SocketBuffer, get_length, get_bytes}
use p2p_live.Buffer.Window.{IsValid}
use p2p_live.Buffer.Text.{Backed, get_bytes-put_bytes}
use p2p_live.Endian.{Typelist, struct_size, cast_struct, save_to, cast_to}
use p2p_live.Endian.Swap.{Bytes}
use p2p_live.Endian.Layout.{length-cast_struct, cast_struct-cast_struct}

-- On a valid buffer over a live block with room for it, a struct that is saved is read back from
-- the same buffer as it was, whatever the target struct held before.
pub cast_to-save_to :
    (ws : Typelist) (val junk : List ℕ) (b : SocketBuffer) (h : Heap) (xs : List ℕ)
    → IsValid b
    → Backed b h xs
    → length val ≡ struct_size ws
    → Bytes val
    → struct_size ws ≤ get_length b
    → (h' : Heap) × (save_to ws val b h ≡ some (true, cast_struct ws val, h'))
      × (cast_to ws b h' junk ≡ some (true, val))
unfolding save_to cast_to
cast_to-save_to ws val junk b h xs v k len ok room =
    let wire = cast_struct ws val in
    let wire_len : length wire ≡ struct_size ws = length-cast_struct ws val (omega arith) ∙ len in
    let (h', put, got) = get_bytes-put_bytes b h xs wire v k (omega arith) in
    let back : get_bytes (struct_size ws) b h' ≡ some wire =
      ap (λ n. get_bytes n b h') (sym wire_len) ∙ got in
    let roomy = le→ltb (struct_size ws) (get_length b) room in
    (
      h',
      ground (arith, roomy, put),
      ground (arith, roomy, back, cast_struct-cast_struct ws val (omega arith) ok),
    )
