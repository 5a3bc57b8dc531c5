-- ===== src/Tracker/Requests.antt =====
-- The requests of a node on their way to the tracker.
use p2p_live.Prelude.{
  ℕ, ◌≡◌, refl, sym, ap, subst, ◌∙◌, Bool, true, false, List, [], ◌∷◌, ◌++◌, map, if◌then◌else◌,
  inl, inr, Bool-cases,
}
use mathlib.Core.List.{append_assoc, append-nil, map-append}
use p2p_live.Proto.{Package, Strategy, node_req, heart, udp_connection_req}
use p2p_live.Tracker.Client.{
  is_foreign, dials_tracker, NodeClient, ClientEffect, sends_package, Task, asks_nodes,
  asks_trackers, WriteEnd, came_back, threw, goes, later_ends, flush, to_read, request_of,
  update_nodes, update_trackers, begin_turn, PackageRead, arrived, timed_out, thrown, on_package,
  end_turn, request_update_nodes, request_update_trackers, run_task, first_task,
}

-- What the application asks of a client, and what its coroutine does.
pub data ClientStep : Type 0 where
  wants_nodes : ℕ → Strategy → ClientStep
  wants_trackers : ClientStep
  runs_task begins : List WriteEnd → ClientStep
  ends : (remote_ip : ℕ) → PackageRead → ClientStep
  links : Bool → ClientStep

unfoldable pub client_step : ClientStep → NodeClient → NodeClient × List ClientEffect
unfolding request_update_nodes request_update_trackers run_task begin_turn end_turn
client_step (wants_nodes count strategy) s = request_update_nodes count strategy s
client_step wants_trackers s = request_update_trackers s
client_step (runs_task writes) s = run_task writes s
client_step (begins writes) s = begin_turn writes s
client_step (ends remote_ip read) s = let t = end_turn remote_ip read s in (t.client, t.effects)
client_step (links up) s = (record s { is_connect = up }, [])

unfoldable pub run_client : List ClientStep → NodeClient → NodeClient × List ClientEffect
unfolding client_step
run_client [] s = (s, [])
run_client (x ∷ xs) s =
    let (s', now) = client_step x s in let (t, later) = run_client xs s' in (t, now ++ later)

abbrev pub wanted : List ClientStep → List (ℕ × Strategy)
wanted [] = []
wanted (wants_nodes count strategy ∷ xs) = (count, strategy) ∷ wanted xs
wanted (_ ∷ xs) = wanted xs

abbrev is_node_req : Package → Bool
is_node_req (node_req r) = true
is_node_req _ = false

abbrev asks : ClientEffect → Bool
asks (sends_package p) = is_node_req p
asks _ = false

-- The node requests among the packets that are handed over.
abbrev pub node_reqs : List ClientEffect → List ClientEffect
node_reqs [] = []
node_reqs (e ∷ es) = if asks e then e ∷ node_reqs es else node_reqs es

node_reqs-append : (es fs : List ClientEffect) → node_reqs (es ++ fs) ≡ node_reqs es ++ node_reqs fs
node_reqs-append [] fs = refl
node_reqs-append (e ∷ es) fs = elim (Bool-cases (asks e)) [
  | inl is_one ↦ rw is_one (ap (λ t. e ∷ t) (node_reqs-append es fs))
  | inr is_none ↦ rw is_none (node_reqs-append es fs)
]

abbrev wanted_now : ClientStep → List (ℕ × Strategy)
wanted_now (wants_nodes count strategy) = (count, strategy) ∷ []
wanted_now _ = []

wanted_cons : (x : ClientStep) (xs : List ClientStep) → wanted (x ∷ xs) ≡ wanted_now x ++ wanted xs
wanted_cons (wants_nodes count strategy) xs = refl
wanted_cons wants_trackers xs = refl
wanted_cons (runs_task writes) xs = refl
wanted_cons (begins writes) xs = refl
wanted_cons (ends remote_ip read) xs = refl
wanted_cons (links up) xs = refl

-- What a step hands over and leaves in the queue is what was there and what it adds.
abbrev Conserves : List (ℕ × Strategy) → NodeClient → NodeClient × List ClientEffect → Type 0
Conserves new s (t, es) =
    (node_reqs es ++ map (request_of s.sid) t.node_queue
      ≡ map (request_of s.sid) (s.node_queue ++ new))
    × (t.sid ≡ s.sid)

Conserves-nothing :
    (s t : NodeClient) (es : List ClientEffect)
    → node_reqs es ≡ []
    → t.node_queue ≡ s.node_queue
    → t.sid ≡ s.sid
    → Conserves [] s (t, es)
Conserves-nothing s t es h k l = (
  ap (λ x. x ++ map (request_of s.sid) t.node_queue) h
      ∙ ap (map (request_of s.sid)) (k ∙ sym (append-nil s.node_queue)),
  l,
)

flush_lem :
    (sid : ℕ) (q : List (ℕ × Strategy)) (writes : List WriteEnd)
    → node_reqs (flush sid q writes).handed ++ map (request_of sid) (flush sid q writes).left
      ≡ map (request_of sid) q
unfolding flush
flush_lem sid [] writes = refl
flush_lem sid (r ∷ q) [] = refl
flush_lem sid (r ∷ q) (threw ∷ writes) = refl
flush_lem sid (r ∷ q) (came_back ∷ writes) = ap (λ t. request_of sid r ∷ t) (flush_lem sid q writes)

Conserves-flush :
    (s t : NodeClient) (front : List ClientEffect) (writes : List WriteEnd)
    → node_reqs front ≡ []
    → t.node_queue ≡ (flush s.sid s.node_queue writes).left
    → t.sid ≡ s.sid
    → Conserves [] s (t, front ++ (flush s.sid s.node_queue writes).handed)
Conserves-flush s t front writes h k l =
    let f = flush s.sid s.node_queue writes in
    (
      ap (λ q. node_reqs (front ++ f.handed) ++ map (request_of s.sid) q) k
          ∙ ap (λ z. z ++ map (request_of s.sid) f.left)
              (node_reqs-append front f.handed ∙ ap (λ x. x ++ node_reqs f.handed) h)
          ∙ flush_lem s.sid s.node_queue writes
          ∙ ap (map (request_of s.sid)) (sym (append-nil s.node_queue)),
      l,
    )

Conserves-to_read :
    (s : NodeClient) (front : List ClientEffect) (writes : List WriteEnd)
    → node_reqs front ≡ []
    → Conserves [] s (to_read front (update_nodes writes s))
unfolding update_nodes
Conserves-to_read s front writes h =
    let f = flush s.sid s.node_queue writes in
    elim (Bool-cases f.over) [
      | inl over ↦
          let t = record s { node_queue = f.left; wait_next_package = true } in
          rw over (Conserves-flush s t front writes h refl refl)
      | inr cut ↦
          rw cut (Conserves-flush s (record s { node_queue = f.left }) front writes h refl refl)
    ]

Conserves-first_task :
    (writes : List WriteEnd) (ts : List Task) (s : NodeClient)
    → Conserves [] s (first_task writes ts s)
unfolding update_nodes update_trackers
Conserves-first_task writes [] s = Conserves-nothing s s [] refl refl refl
Conserves-first_task writes (asks_nodes ∷ ts) s =
    let left = (flush s.sid s.node_queue writes).left in
    Conserves-flush s (record s { scheduled = ts; node_queue = left }) [] writes refl refl refl
Conserves-first_task writes (asks_trackers ∷ ts) s =
    Conserves-nothing s (record s { scheduled = ts }) (update_trackers 100) refl refl refl

quiet-on_package :
    (remote_ip : ℕ) (p : Package) (s : NodeClient)
    → let t = on_package remote_ip p s in
      (node_reqs t.effects ≡ []) × (t.client.node_queue ≡ s.node_queue) × (t.client.sid ≡ s.sid)
unfolding on_package
quiet-on_package remote_ip (udp_connection_req req) s = elim (Bool-cases (is_foreign s req)) [
  | inl foreign ↦ rw foreign (refl, refl, refl)
  | inr own ↦ rw own (refl, refl, refl)
]
quiet-on_package remote_ip _ s = (refl, refl, refl)

Conserves-client_step :
    (x : ClientStep) (s : NodeClient) → Conserves (wanted_now x) s (client_step x s)
unfolding client_step request_update_nodes request_update_trackers run_task begin_turn end_turn
    update_nodes update_trackers
Conserves-client_step (wants_nodes count strategy) s = elim (Bool-cases s.is_connect) [
  | inl up ↦ elim (Bool-cases s.wait_next_package) [
    | inl waits ↦ rw (up, waits) (refl, refl)
    | inr busy ↦ rw (up, busy) (refl, refl)
  ]
  | inr down ↦ rw down (refl, refl)
]
Conserves-client_step wants_trackers s = elim (Bool-cases s.is_connect) [
  | inl up ↦ elim (Bool-cases s.wait_next_package) [
    | inl waits ↦
        rw (up, waits)
          (Conserves-nothing s (record s { scheduled = s.scheduled ++ asks_trackers ∷ [] }) [] refl
            refl refl)
    | inr busy ↦ rw (up, busy) (Conserves-nothing s s [] refl refl refl)
  ]
  | inr down ↦ rw down (
      Conserves-nothing s (record s { request_trackers = true })
        (dials_tracker s.remote_server_address ∷ []) refl refl refl)
]
Conserves-client_step (runs_task writes) s = Conserves-first_task writes s.scheduled s
Conserves-client_step (begins writes) s = by_tests s.request_trackers (goes writes)
  where
    by_tests :
        (asked back : Bool)
        → Conserves [] s (
            if asked
            then (if back
                then to_read
                    (update_trackers 50)
                    (update_nodes (later_ends writes) (record s { request_trackers = false }))
                else (s, update_trackers 50))
            else to_read [] (update_nodes writes s))
    by_tests true true =
        Conserves-to_read (record s { request_trackers = false }) (update_trackers 50)
          (later_ends writes) refl
    by_tests true false = Conserves-nothing s s (update_trackers 50) refl refl refl
    by_tests false back = Conserves-to_read s [] writes refl
Conserves-client_step (ends remote_ip (arrived p)) s =
    let s' = record s { wait_next_package = false } in
    let t = on_package remote_ip p s' in
    let (none_sent, same_queue, same_sid) = quiet-on_package remote_ip p s' in
    Conserves-nothing s t.client t.effects none_sent same_queue same_sid
Conserves-client_step (ends remote_ip (timed_out heart_write)) s =
    Conserves-nothing s (record s { wait_next_package = false }) (sends_package heart ∷ []) refl
      refl refl
Conserves-client_step (ends remote_ip (thrown why)) s = Conserves-nothing s s [] refl refl refl
Conserves-client_step (links up) s =
    Conserves-nothing s (record s { is_connect = up }) [] refl refl refl

-- Whatever is asked of the client and however its writes end: the node requests that have been handed
-- to the connection, followed by those that wait in its queue, are those that waited at the start,
-- followed by those that were asked for since, in order and each once, with the client's own session
-- number. (One whose write fails counts as handed over: it is not kept for another try.)
pub node_reqs-run_client :
    (xs : List ClientStep) (s : NodeClient)
    → let (t, es) = run_client xs s in
      node_reqs es ++ map (request_of s.sid) t.node_queue
      ≡ map (request_of s.sid) (s.node_queue ++ wanted xs)
unfolding run_client
node_reqs-run_client [] s = ap (map (request_of s.sid)) (sym (append-nil s.node_queue))
node_reqs-run_client (x ∷ xs) s =
    let s1 = (client_step x s).0 in
    let now = (client_step x s).1 in
    let (t, later) = run_client xs s1 in
    let f = map (request_of s.sid) in
    let (kept, sid) = Conserves-client_step x s in
    let rest : node_reqs later ++ f t.node_queue ≡ f (s1.node_queue ++ wanted xs) =
      subst
        (λ i.
          node_reqs later ++ map (request_of i) t.node_queue
          ≡ map (request_of i) (s1.node_queue ++ wanted xs))
        sid (node_reqs-run_client xs s1) in
    ap (λ z. z ++ f t.node_queue) (node_reqs-append now later)
    ∙ append_assoc (node_reqs now) (node_reqs later) (f t.node_queue)
    ∙ ap (λ z. node_reqs now ++ z) (rest ∙ map-append (request_of s.sid) s1.node_queue (wanted xs))
    ∙ sym (append_assoc (node_reqs now) (f s1.node_queue) (f (wanted xs)))
    ∙ ap (λ z. z ++ f (wanted xs)) kept
    ∙ sym (map-append (request_of s.sid) (s.node_queue ++ wanted_now x) (wanted xs))
    ∙ ap f (
        append_assoc s.node_queue (wanted_now x) (wanted xs)
        ∙ ap (λ z. s.node_queue ++ z) (sym (wanted_cons x xs)))
