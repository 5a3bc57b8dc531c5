-- ===== src/Edge/Tests.antt =====
-- A store with one fragment, and a second fragment under the same number.
use p2p_live.Prelude.{◌≡◌, [], ◌∷◌, if◌then◌else◌, ◌==◌}
use p2p_live.Edge.{SessionFragmentContent, empty_fragments, add_fragment, get_fragment}
use p2p_live.Edge.Contents.{
  fragment_at, or_empty, first, IsStored, empty_fragments-IsStored, add_fragment-IsStored,
  get_fragment-add_fragment,
}

abbrev one_fragment : SessionFragmentContent
one_fragment = add_fragment (1 ∷ 2 ∷ []) 5 empty_fragments

one_fragment-IsStored : IsStored one_fragment
one_fragment-IsStored =
    add_fragment-IsStored (1 ∷ 2 ∷ []) 5 empty_fragments empty_fragments-IsStored

add_fragment-IsStored_example : IsStored (add_fragment (9 ∷ []) 6 one_fragment)
add_fragment-IsStored_example = add_fragment-IsStored (9 ∷ []) 6 one_fragment one_fragment-IsStored

get_fragment-add_fragment_example :
    (get_fragment 5 one_fragment ≡ or_empty (fragment_at 5 one_fragment))
    × (get_fragment 5 (add_fragment (9 ∷ []) 5 one_fragment)
        ≡ or_empty (
            if 5 == 5
            then first (fragment_at 5 one_fragment) (9 ∷ [])
            else fragment_at 5 one_fragment))
get_fragment-add_fragment_example =
    get_fragment-add_fragment (9 ∷ []) 5 5 one_fragment one_fragment-IsStored
