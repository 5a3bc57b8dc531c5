-- ===== src/Buffer/Tests.antt =====
-- Buffers at work: a copy that outlives its original, a string, and an assignment.
use p2p_live.Prelude.{ℕ, ◌≡◌, refl, arith, false, none, some, List, [], ◌∷◌}
use p2p_live.Buffer.{SocketBuffer, of_length, copy, assign, destroy}
use p2p_live.Buffer.Memory.{Heap, alloc, refs_at, bytes_at}
use p2p_live.Buffer.Window.{IsValid}
use p2p_live.Buffer.Lifetime.{
  Reach, start, next, constructs, copies, destroys, destroy_all, destroy_all_lem,
}
use p2p_live.Buffer.Text.{Backed}

abbrev block : List ℕ
block = 5 ∷ 6 ∷ 7 ∷ []

abbrev owner : SocketBuffer
owner = record {
  ptr = some 0;
  header = some 0;
  buffer_size = 3;
  valid_data_length = 0;
  walk_offset = 0;
}

abbrev heap_with : ℕ → Heap
heap_with n = record { bytes = some block; refs = some n } ∷ []

-- A buffer is made, copied, and destroyed once.
history : Reach (heap_with 1) (owner ∷ [])
unfolding of_length alloc copy destroy
history =
    next (next (next start (constructs block)) (copies {h' = heap_with 2} {b = owner} refl))
      (destroys {b = owner} refl)

destroy_all_lem_example :
    (h' : Heap) × (destroy_all (owner ∷ []) (heap_with 1) ≡ some h')
    × ((i : ℕ) → (refs_at h' i ≡ none) × (bytes_at h' i ≡ none))
destroy_all_lem_example = destroy_all_lem (heap_with 1) (owner ∷ []) history

abbrev two_blocks : Heap
two_blocks =
    record { bytes = some block; refs = some 1 } ∷ record { bytes = some block; refs = some 1 } ∷ []

abbrev other_owner : SocketBuffer
other_owner = record {
  ptr = some 1;
  header = some 1;
  buffer_size = 3;
  valid_data_length = 0;
  walk_offset = 0;
}

two_buffers : Reach two_blocks (other_owner ∷ owner ∷ [])
unfolding of_length alloc
two_buffers = next (next start (constructs block)) (constructs block)

abbrev after_assign : Heap
after_assign =
    record { bytes = some block; refs = some 2 } ∷ record { bytes = some block; refs = some 1 } ∷ []

assign_once : assign false other_owner owner two_blocks ≡ some (owner, after_assign)
unfolding assign copy
assign_once = refl

abbrev text : List ℕ
text = 1 ∷ 2 ∷ 3 ∷ []

abbrev pane : SocketBuffer
pane = record {
  ptr = some 0;
  header = none;
  buffer_size = 3;
  valid_data_length = 3;
  walk_offset = 1;
}

pane-IsValid : IsValid pane
pane-IsValid = record {
  size_fits = omega arith;
  valid_in_size = omega arith;
  walk_in_valid = omega arith;
}

pane-Backed : Backed pane (heap_with 1) block
pane-Backed = record { block = 0; points = refl; holds_bytes = refl; long = omega arith }
