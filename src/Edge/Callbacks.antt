-- ===== src/Edge/Callbacks.antt =====
-- The callbacks of src/edge-server/main.cc on `globl_data`, and what they give the peer to send.
use p2p_live.Prelude.{ℕ, ◌≡◌, refl, Option, none, some, List, [], lookup, insert, nat_eq}
use p2p_live.Edge.{SessionFragmentContent, add_fragment, get_fragment, add_meta, get_meta}

-- `channel_t`: two pointers, null in a new channel.
pub record EdgeChannel : Type 0 where
  pub fragment : Option SessionFragmentContent
  pub meta : Option (List (ℕ × List ℕ))

-- `globl_data`: channels below sessions.
abbrev pub GlobalData : Type 0
GlobalData = List (ℕ × List (ℕ × EdgeChannel))

abbrev pub null_channel : EdgeChannel
null_channel = record { fragment = none; meta = none }

abbrev pub channels_of : Option (List (ℕ × EdgeChannel)) → List (ℕ × EdgeChannel)
channels_of none = []
channels_of (some cs) = cs

abbrev pub channel_or_new : Option EdgeChannel → EdgeChannel
channel_or_new none = null_channel
channel_or_new (some c) = c

-- `globl_data[sid][channel]`: what is not there is made.
unfoldable pub channel_at : (sid channel : ℕ) → GlobalData → EdgeChannel
channel_at sid channel d = channel_or_new (lookup channel (channels_of (lookup sid d)))

abbrev pub put_channel : (sid channel : ℕ) → EdgeChannel → GlobalData → GlobalData
put_channel sid channel c d = insert sid (insert channel c (channels_of (lookup sid d))) d

-- What is sent with `send_meta_data_to_peer`.
pub record Answer : Type 0 where
  pub number : ℕ
  pub channel : ℕ
  pub bytes : List ℕ

abbrev pub answer_fragment : ℕ → ℕ → GlobalData → Option (List ℕ) → Option (GlobalData × Answer)
answer_fragment fid channel d none = none
answer_fragment fid channel d (some b) =
    some (d, record { number = fid; channel = channel; bytes = b })

-- `on_fragment_pull_request`; `none` is a fault, here and below: a null pointer.
unfoldable pub on_fragment_pull_request :
    (sid fid channel : ℕ) → GlobalData → Option (GlobalData × Answer)
unfolding channel_at get_fragment
on_fragment_pull_request sid fid channel d =
    let c = channel_at sid channel d in
    elim c.fragment [
      | none ↦ none
      | some f ↦ answer_fragment fid channel (put_channel sid channel c d) (get_fragment fid f)
    ]

-- `on_meta_pull_request`
unfoldable pub on_meta_pull_request :
    (sid key channel : ℕ) → GlobalData → Option (GlobalData × Answer)
unfolding channel_at get_meta
on_meta_pull_request sid key channel d =
    let c = channel_at sid channel d in
    elim c.meta [
      | none ↦ none
      | some m ↦ some (
        put_channel sid channel c d,
        record { number = key; channel = channel; bytes = get_meta key m },
      )
    ]

-- `on_fragment_recv`
unfoldable pub on_fragment_recv :
    (sid : ℕ) → List ℕ → (fid channel : ℕ) → GlobalData → Option GlobalData
unfolding channel_at add_fragment
on_fragment_recv sid buffer fid channel d =
    let c = channel_at sid channel d in
    elim c.fragment [
      | none ↦ none
      | some f ↦
          some
            (put_channel sid channel (record c { fragment = some (add_fragment buffer fid f) }) d)
    ]

-- `on_meta_data_recv`
unfoldable pub on_meta_data_recv :
    (sid : ℕ) → List ℕ → (key channel : ℕ) → GlobalData → Option GlobalData
unfolding channel_at add_meta
on_meta_data_recv sid buffer key channel d =
    let c = channel_at sid channel d in
    elim c.meta [
      | none ↦ none
      | some m ↦ some (put_channel sid channel (record c { meta = some (add_meta buffer key m) }) d)
    ]

-- Where a session has no channels yet, every callback faults: nothing makes a store before.
pub channel_at-faults :
    (sid fid channel : ℕ) (buffer : List ℕ) (d : GlobalData)
    → lookup sid d ≡ none
    → (on_fragment_pull_request sid fid channel d ≡ none)
      × (on_meta_pull_request sid fid channel d ≡ none)
      × (on_fragment_recv sid buffer fid channel d ≡ none)
      × (on_meta_data_recv sid buffer fid channel d ≡ none)
unfolding channel_at on_fragment_pull_request on_meta_pull_request on_fragment_recv
    on_meta_data_recv
channel_at-faults sid fid channel buffer d h = (
  rw (on_fragment_pull_request, channel_at, h) refl,
  rw (on_meta_pull_request, channel_at, h) refl,
  rw (on_fragment_recv, channel_at, h) refl,
  rw (on_meta_data_recv, channel_at, h) refl,
)
