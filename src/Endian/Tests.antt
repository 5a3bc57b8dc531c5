-- ===== src/Endian/Tests.antt =====
-- A struct of a `u16` and a `u32`, on a buffer with room for it.
use p2p_live.Prelude.{ℕ, ◌≤◌, ◌≡◌, refl, arith, true, none, some, List, [], ◌∷◌}
use p2p_live.Buffer.{SocketBuffer, get_length}
use p2p_live.Buffer.Memory.{Heap}
use p2p_live.Buffer.Window.{IsValid}
use p2p_live.Buffer.Text.{Backed}
use p2p_live.Endian.{Typelist, struct_size, byte2, byte4, cast_struct, save_to, cast_to}
use p2p_live.Endian.Swap.{Bytes}
use p2p_live.Endian.Layout.{mirror, cast_struct-mirror}
use p2p_live.Endian.Records.{cast_to-save_to}

abbrev members : Typelist
members = byte2 ∷ byte4 ∷ []

abbrev value : List ℕ
value = 1 ∷ 2 ∷ 3 ∷ 4 ∷ 5 ∷ 6 ∷ []

value-Bytes : Bytes value
value-Bytes =
    (omega arith, (omega arith, (omega arith, (omega arith, (omega arith, (omega arith, tt))))))

cast_struct-mirror_example : cast_struct members value ≡ mirror members value
cast_struct-mirror_example = cast_struct-mirror members value (omega arith) value-Bytes

abbrev memory : Heap
memory = record { bytes = some (0 ∷ 0 ∷ 0 ∷ 0 ∷ 0 ∷ 0 ∷ 0 ∷ []); refs = none } ∷ []

abbrev seven_bytes : SocketBuffer
seven_bytes = record {
  ptr = some 0;
  header = none;
  buffer_size = 7;
  valid_data_length = 7;
  walk_offset = 1;
}

seven_bytes-IsValid : IsValid seven_bytes
seven_bytes-IsValid = record {
  size_fits = omega arith;
  valid_in_size = omega arith;
  walk_in_valid = omega arith;
}

seven_bytes-Backed : Backed seven_bytes memory (0 ∷ 0 ∷ 0 ∷ 0 ∷ 0 ∷ 0 ∷ 0 ∷ [])
seven_bytes-Backed = record { block = 0; points = refl; holds_bytes = refl; long = omega arith }

seven_bytes_room : struct_size members ≤ get_length seven_bytes
unfolding get_length
seven_bytes_room = omega arith

cast_to-save_to_example :
    (h' : Heap) × (save_to members value seven_bytes memory
      ≡ some (true, cast_struct members value, h'))
    × (cast_to members seven_bytes h' [] ≡ some (true, value))
cast_to-save_to_example =
    cast_to-save_to members value [] seven_bytes memory (0 ∷ 0 ∷ 0 ∷ 0 ∷ 0 ∷ 0 ∷ 0 ∷ [])
      seven_bytes-IsValid seven_bytes-Backed refl value-Bytes seven_bytes_room
