-- ===== src/Event/Demultiplexers.antt =====
-- lib/net/select.cc and lib/net/epoll.cc: what a demultiplexer asks of the kernel and makes of its
-- answer. Handles are numbers; `wake` is the descriptor of the eventfd.
use p2p_live.Prelude.{
  ℕ, zero, suc, ◌+◌, ◌/◌, ◌%◌, ◌≡◌, ◌<◌, ◌≤◌, ap, ◌∙◌, arith, Bool, true, false, Option, none, some,
  if◌then◌else◌, ◌==◌, nat_eq, Bool-cases, inl, inr,
}

-- `event_type`
abbrev pub readable : ℕ
readable = 1

abbrev pub writable : ℕ
writable = 2

abbrev pub error : ℕ
error = 4

-- `type & bit`
abbrev pub has_event : ℕ → ℕ → Bool
has_event type bit = type / bit % 2 == 1

-- `fd_set`
abbrev pub FdSet : Type 0
FdSet = ℕ → Bool

abbrev pub fd_set : ℕ → Bool → FdSet → FdSet
fd_set handle on s = λ i. if handle == i then on else s i

abbrev pub fd_change : Bool → ℕ → Bool → FdSet → FdSet
fd_change asked handle on s = if asked then fd_set handle on s else s

-- `event_select_demultiplexer`
pub record SelectDemultiplexer : Type 0 where
  pub wake : ℕ
  pub read_set : FdSet
  pub write_set : FdSet
  pub error_set : FdSet

abbrev pub change_sets : ℕ → ℕ → Bool → SelectDemultiplexer → SelectDemultiplexer
change_sets handle type on s = record s {
  read_set = fd_change (has_event type readable) handle on s.read_set;
  write_set = fd_change (has_event type writable) handle on s.write_set;
  error_set = fd_change (has_event type error) handle on s.error_set;
}

-- `add` and `remove`
unfoldable pub add_to_sets : ℕ → ℕ → SelectDemultiplexer → SelectDemultiplexer
add_to_sets handle type s = change_sets handle type true s

unfoldable pub remove_from_sets : ℕ → ℕ → SelectDemultiplexer → SelectDemultiplexer
remove_from_sets handle type s = change_sets handle type false s

-- What `select` tells the loop: a handle, 0 for none, with its event, and whether `*timeout` is set
-- to 0.
pub record Selected : Type 0 where
  pub handle : ℕ
  pub event : Option ℕ
  pub no_timeout : Bool

abbrev pub nothing_selected : Selected
nothing_selected = record { handle = 0; event = none; no_timeout = false }

-- What `::select` leaves in the three sets; or an error, or the end of the time.
pub data SelectAnswer : Type 0 where
  select_fails times_out : SelectAnswer
  sets_ready : (rs ws es : FdSet) → SelectAnswer

abbrev pub event_in : (rs ws es : FdSet) → ℕ → Option ℕ
event_in rs ws es j =
    if rs j
    then some readable
    else if ws j
    then some writable
    else if es j
    then some error
    else none

abbrev pub selected_at : (wake j : ℕ) → Option ℕ → Selected → Selected
selected_at wake j none later = later
selected_at wake j (some type) later =
    if j == wake
    then record { handle = 0; event = some type; no_timeout = true }
    else record { handle = j; event = some type; no_timeout = false }

-- The loop over `n` descriptors from `j` on.
unfoldable pub scan_sets : (wake : ℕ) → (rs ws es : FdSet) → (j n : ℕ) → Selected
scan_sets wake rs ws es j zero = nothing_selected
scan_sets wake rs ws es j (suc n) =
    let later = scan_sets wake rs ws es (suc j) n in selected_at wake j (event_in rs ws es j) later

-- `event_select_demultiplexer::select`: from 3 up to `FD_SETSIZE`, 1024.
unfoldable pub select_sets : SelectAnswer → SelectDemultiplexer → Selected
unfolding scan_sets
select_sets select_fails s = nothing_selected
select_sets times_out s = record { handle = 0; event = none; no_timeout = true }
select_sets (sets_ready rs ws es) s = scan_sets s.wake rs ws es 3 1021

-- What `epoll_wait` gives for one event: its descriptor and the three flags that are looked at.
pub data EpollAnswer : Type 0 where
  wait_fails wait_times_out : EpollAnswer
  one_event : (fd : ℕ) → (is_in is_out is_err : Bool) → EpollAnswer

-- `event_epoll_demultiplexer::select`
unfoldable pub select_epoll : (wake : ℕ) → EpollAnswer → Selected
select_epoll wake wait_fails = nothing_selected
select_epoll wake wait_times_out = record { handle = 0; event = none; no_timeout = true }
select_epoll wake (one_event fd is_in is_out is_err) =
    selected_at wake fd (event_in (λ i. is_in) (λ i. is_out) (λ i. is_err) fd) nothing_selected

-- The flags that `add` and `remove` give to `epoll_ctl`: `EPOLLIN`, `EPOLLOUT` and `EPOLLERR`.
unfoldable pub epoll_flags : ℕ → Bool × Bool × Bool
epoll_flags type = (has_event type readable, has_event type writable, has_event type error)

abbrev pub is_event : Option ℕ → Bool
is_event none = false
is_event (some t) = true

-- The descriptors before one that is ready are not.
abbrev pub NoneReady : (rs ws es : FdSet) → (j k : ℕ) → Type 0
NoneReady rs ws es j k = (i : ℕ) → j ≤ i → i < k → event_in rs ws es i ≡ none

-- The loop gives the lowest descriptor that is ready, with the first of its events.
pub scan_sets_lem :
    (wake : ℕ) (rs ws es : FdSet) (k type j n : ℕ)
    → NoneReady rs ws es j k
    → j ≤ k
    → k < j + n
    → event_in rs ws es k ≡ some type
    → scan_sets wake rs ws es j n ≡ selected_at wake k (some type) nothing_selected
unfolding scan_sets
scan_sets_lem wake rs ws es k type j zero h l m e = absurd (omega arith)
scan_sets_lem wake rs ws es k type j (suc n) h l m e = elim (Bool-cases (j == k)) [
  | inl here ↦
      let same : j ≡ k = ground (arith, here) in
      let later = scan_sets wake rs ws es (suc j) n in
      ap (λ i. selected_at wake i (event_in rs ws es i) later) same
      ∙ ap (λ o. selected_at wake k o later) e
  | inr before ↦ rw (h j (omega arith) (ground (arith, before))) (
      scan_sets_lem wake rs ws es k type (suc j) n (λ i a b. h i (omega arith) b)
        (ground (arith, before)) (omega arith) e)
]
