-- ===== src/Peer/Queues.antt =====
-- `peer_t::async_do_write`, the function that it schedules, and the four functions that put something on a queue of a channel.
use p2p_live.Prelude.{
  ℕ, suc, Bool, true, false, ◌&&◌, not, Option, none, some, List, [], ◌∷◌, ◌++◌, map, if◌then◌else◌,
  ◌==◌,
}
use p2p_live.Peer.{PeerPackage, ChannelInfo}
use p2p_live.Peer.Sending.{
  Sent, send_fragments, send_init, update_fragments, update_metainfo, send_metainfo,
}

-- What one run of the function that `async_do_write` schedules leaves; `ok` is false where a send
-- threw.
pub record Flushed : Type 0 where
  pub channel : ChannelInfo
  pub packages : List PeerPackage
  pub ok : Bool

abbrev pub greeting : ℕ → Bool → ℕ → List PeerPackage
greeting sid has_connect c = if not has_connect && c == 0 then send_init sid ∷ [] else []

abbrev pub then_send : Sent → Option Flushed → Option Flushed
then_send s none = none
then_send s (some f) = some (record f { packages = s.packages ++ f.packages })

-- `while (!queues.fragment_send_queue.empty())`: an entry leaves the queue before it is sent.
unfoldable pub send_queue : (PeerPackage → ℕ) → ℕ → ChannelInfo → List (ℕ × List ℕ) → Option Flushed
send_queue size mtu ch [] =
    some (record { channel = record ch { fragment_send_queue = [] }; packages = []; ok = true })
send_queue size mtu ch ((fid, content) ∷ q) =
    let rest = send_queue size mtu ch q in
    elim (send_fragments size mtu fid content) [
      | none ↦ none
      | some s ↦
          if s.complete
          then then_send s rest
          else some (record {
            channel = record ch { fragment_send_queue = q };
            packages = s.packages;
            ok = false;
          })
    ]

-- The chain of `else if` drains the first queue that is not empty, and only that one.
unfoldable pub flush_queues : (PeerPackage → ℕ) → ℕ → ChannelInfo → Option Flushed
unfolding send_queue
flush_queues size mtu ch = elim ch.frag_request_queue [
  | r ∷ rs ↦ some (record {
    channel = record ch { frag_request_queue = [] };
    packages = map (λ q. update_fragments q.0 q.1) (r ∷ rs);
    ok = true;
  })
  | [] ↦ elim ch.fragment_send_queue [
    | x ∷ xs ↦ send_queue size mtu ch (x ∷ xs)
    | [] ↦ elim ch.meta_request_queue [
      | k ∷ ks ↦ some (record {
        channel = record ch { meta_request_queue = [] };
        packages = map update_metainfo (k ∷ ks);
        ok = true;
      })
      | [] ↦ some (record {
        channel = record ch { meta_send_queue = [] };
        packages = map (λ q. send_metainfo q.0 q.1) ch.meta_send_queue;
        ok = true;
      })
    ]
  ]
]

abbrev pub with_greeting : List PeerPackage → Option Flushed → Option Flushed
with_greeting g none = none
with_greeting g (some f) = some (record f { packages = g ++ f.packages })

-- The function that `async_do_write` gives to the coroutine of channel `c`.
unfoldable pub do_write : (PeerPackage → ℕ) → ℕ → ℕ → Bool → ℕ → ChannelInfo → Option Flushed
unfolding flush_queues
do_write size mtu sid has_connect c ch =
    with_greeting (greeting sid has_connect c) (flush_queues size mtu ch)

-- A channel and the runs that are scheduled on its coroutine; `connected` says whether the channel
-- has a connection that is not closed.
pub record Schedule : Type 0 where
  pub channel : ChannelInfo
  pub runs : ℕ
  pub connected : Bool

-- `async_do_write`: `run_at` schedules one more run, or drops it where there is no connection.
unfoldable pub async_do_write : Schedule → Schedule
async_do_write s = if s.connected then record s { runs = suc s.runs } else s

unfoldable pub pull_meta_data : ℕ → Schedule → Schedule
unfolding async_do_write
pull_meta_data key s = async_do_write (record s {
  channel = record s.channel { meta_request_queue = s.channel.meta_request_queue ++ key ∷ [] };
})

unfoldable pub pull_fragment_from_peer : List ℕ → ℕ → Schedule → Schedule
unfolding async_do_write
pull_fragment_from_peer ids priority s = async_do_write (record s {
  channel = record s.channel {
    frag_request_queue = s.channel.frag_request_queue ++ (ids, priority) ∷ [];
  };
})

unfoldable pub send_fragment_to_peer : ℕ → List ℕ → Schedule → Schedule
unfolding async_do_write
send_fragment_to_peer fid content s = async_do_write (record s {
  channel = record s.channel {
    fragment_send_queue = s.channel.fragment_send_queue ++ (fid, content) ∷ [];
  };
})

unfoldable pub send_meta_data_to_peer : ℕ → List ℕ → Schedule → Schedule
unfolding async_do_write
send_meta_data_to_peer key value s = async_do_write (record s {
  channel = record s.channel { meta_send_queue = s.channel.meta_send_queue ++ (key, value) ∷ [] };
})
