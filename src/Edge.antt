-- ===== src/Edge.antt =====
-- src/edge-server/main.cc: what an edge server keeps of each session and channel.
pub mod Contents
pub mod Callbacks
pub mod Tests
use p2p_live.Prelude.{
  ℕ, ◌+◌, Option, none, some, List, [], ◌∷◌, ◌++◌, length, get_elem?, drop, lookup, emplace, insert,
  nat_eq, ltb, if◌then◌else◌, ◌-◌,
}

-- `session_fragment_content`; a buffer is the bytes it shows.
pub record SessionFragmentContent : Type 0 where
  pub queue : List ℕ
  pub map : List (ℕ × ℕ)
  pub vector : List (List ℕ)

abbrev pub empty_fragments : SessionFragmentContent
empty_fragments = record { queue = []; map = []; vector = [] }

-- `while (queue.size() > 50) queue.pop();`
abbrev pub trim_queue : List ℕ → List ℕ
trim_queue q = drop (length q - 50) q

-- `session_fragment_content::add_data`
unfoldable pub add_fragment : List ℕ → ℕ → SessionFragmentContent → SessionFragmentContent
add_fragment buffer fragment_id s = record {
  queue = trim_queue (s.queue ++ length s.vector ∷ []);
  map = emplace fragment_id (length s.vector) s.map;
  vector = s.vector ++ buffer ∷ [];
}

-- `session_fragment_content::get_data`: the optional always holds a buffer, a null one for a number
-- that is not there. `none` is the fault of `vector[i]` out of range.
unfoldable pub get_fragment : ℕ → SessionFragmentContent → Option (List ℕ)
get_fragment key s = elim (lookup key s.map) [ none ↦ some [] | some i ↦ get_elem? s.vector i ]

-- `session_meta_content::add_data` and `get_data`
unfoldable pub add_meta : List ℕ → ℕ → List (ℕ × List ℕ) → List (ℕ × List ℕ)
add_meta buffer key raw_data = insert key buffer raw_data

abbrev pub or_null_buffer : Option (List ℕ) → List ℕ
or_null_buffer none = []
or_null_buffer (some b) = b

unfoldable pub get_meta : ℕ → List (ℕ × List ℕ) → List ℕ
get_meta key raw_data = or_null_buffer (lookup key raw_data)
