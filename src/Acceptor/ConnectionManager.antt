-- ===== src/Acceptor/ConnectionManager.antt =====
-- wangle/acceptor/ConnectionManager.h and ConnectionManager.cpp: the list of the connections, with the
-- iterators into it, and how connections are added, removed and moved. A connection is a number. It
-- belongs to this manager if it is in the list; that it is taken from another one is left out. An
-- iterator is the connection that it points to, or `none` for conns_.end().
pub mod Draining
pub mod Dropping
pub mod Lists
pub mod Idle
pub mod Calls
pub mod EarlyDrop
pub mod Visits
pub mod Rounds
pub mod ClosingRound
pub mod Graceful
pub mod Stopping
pub mod Undisturbed
pub mod Checks
use provider_agent_proxy.Common.{
  ℕ, Bool, true, false, not, ◌&&◌, ◌||◌, List, [], ◌∷◌, ◌++◌, Option, none, some, ◌==◌, ltb, leb,
  if◌then◌else◌, length, update, head, ◌/◌,
}

pub data ShutdownState : Type 0 where
  not_shut notify_pending notify_complete close_when_idle close_complete : ShutdownState

abbrev pub rank : ShutdownState → ℕ
rank not_shut = 0
rank notify_pending = 1
rank notify_complete = 2
rank close_when_idle = 3
rank close_complete = 4

-- ManagedConnection::DrainState
pub data DrainState : Type 0 where
  sent_none sent_notify sent_close : DrainState

-- What is called: notifyPendingShutdown(), closeWhenIdle() and dropConnection() of a connection, the
-- timers, and the callback.
pub data Call : Type 0 where
  fire_notify fire_close fire_drop schedule cancel : ℕ → Call
  on_added on_removed on_empty : Call

-- `all`, `pct` and `shutdown_state` are fields of drainHelper_, and `pct` maps a number to its product
-- with pct_ as a size_t; `grace_scheduled` and `loop_scheduled` say whether its timeout and its
-- callback of the event loop are scheduled; `late_closes` are the connections that addConnection()
-- closes at the end of the loop; `drain_states` are the fields state_ of the connections.
pub record ConnectionManager : Type 0 where
  pub conns : List ℕ
  pub drain_iterator : Option ℕ
  pub idle_iterator : Option ℕ
  pub all : Bool
  pub pct : ℕ → ℕ
  pub shutdown_state : ShutdownState
  pub grace_scheduled : Bool
  pub loop_scheduled : Bool
  pub late_closes : List ℕ
  pub notify_pending_shutdown : Bool
  pub has_callback : Bool
  pub timeout : ℕ
  pub idle_threshold : ℕ
  pub drain_states : ℕ → DrainState
  pub calls : List Call

abbrev pub new_manager : ℕ → Bool → ConnectionManager
new_manager timeout has_callback = record {
  conns = [];
  drain_iterator = none;
  idle_iterator = none;
  all = true;
  pct = λ n. n;
  shutdown_state = not_shut;
  grace_scheduled = false;
  loop_scheduled = false;
  late_closes = [];
  notify_pending_shutdown = true;
  has_callback = has_callback;
  timeout = timeout;
  idle_threshold = timeout / 2;
  drain_states = λ c. sent_none;
  calls = [];
}

abbrev pub member : ℕ → List ℕ → Bool
member c [] = false
member c (d ∷ ds) = (d == c) || member c ds

abbrev pub erase : ℕ → List ℕ → List ℕ
erase c [] = []
erase c (d ∷ ds) = if d == c then ds else d ∷ erase c ds

-- The connection after one, which `++` of an iterator moves to.
abbrev pub next_of : ℕ → List ℕ → Option ℕ
next_of c [] = none
next_of c (d ∷ ds) = if d == c then head ds else next_of c ds

abbrev pub points_to : Option ℕ → ℕ → Bool
points_to none c = false
points_to (some d) c = d == c

-- An iterator that is moved on if it points to a connection.
abbrev pub skip_over : ℕ → List ℕ → Option ℕ → Option ℕ
skip_over c cs it = if points_to it c then next_of c cs else it

abbrev pub log : List Call → ConnectionManager → ConnectionManager
log cs m = record m { calls = m.calls ++ cs }

abbrev pub if_callback : List Call → ConnectionManager → ConnectionManager
if_callback cs m = if m.has_callback then log cs m else m

-- drainHelper_.getShutdownState()
abbrev pub get_shutdown_state : ConnectionManager → ShutdownState
get_shutdown_state m = if m.all then m.shutdown_state else not_shut

unfoldable pub schedule_timeout : ℕ → ℕ → ConnectionManager → ConnectionManager
schedule_timeout c t m = if ltb 0 t then log (schedule c ∷ []) m else m

-- The three parts of addConnection().
abbrev pub link_connection : ℕ → ConnectionManager → ConnectionManager
link_connection c m =
    if member c m.conns then m else if_callback (on_added ∷ []) (record m { conns = c ∷ m.conns })

-- ManagedConnection::fireNotifyPendingShutdown()
abbrev pub fire_notify_pending_shutdown : ℕ → ConnectionManager → ConnectionManager
fire_notify_pending_shutdown c m = elim (m.drain_states c) [
  | sent_none ↦
      log (fire_notify c ∷ []) (record m { drain_states = update m.drain_states c sent_notify })
  | _ ↦ m
]

abbrev pub tell_pending : ℕ → ConnectionManager → ConnectionManager
tell_pending c m =
    if leb 1 (rank (get_shutdown_state m)) && m.notify_pending_shutdown
    then fire_notify_pending_shutdown c m
    else m

abbrev pub close_later : ℕ → ConnectionManager → ConnectionManager
close_later c m =
    if leb 3 (rank (get_shutdown_state m))
    then record m { late_closes = m.late_closes ++ (c ∷ []) }
    else m

unfoldable pub add_connection : ℕ → Bool → ConnectionManager → ConnectionManager
unfolding schedule_timeout
add_connection c with_timeout m =
    let linked = link_connection c m in
    let timed = if with_timeout then schedule_timeout c linked.timeout linked else linked in
    close_later c (tell_pending c timed)

-- The connection is taken from the list, and the iterators move on that point to it.
abbrev pub unlink : ℕ → ConnectionManager → ConnectionManager
unlink c m = record m {
  conns = erase c m.conns;
  drain_iterator = skip_over c m.conns m.drain_iterator;
  idle_iterator = skip_over c m.conns m.idle_iterator;
}

abbrev pub empty_call : List ℕ → List Call
empty_call [] = on_empty ∷ []
empty_call (_ ∷ _) = []

-- What is called after a connection is taken from the list.
abbrev pub after_removal : ConnectionManager → ConnectionManager
after_removal m = if_callback (on_removed ∷ empty_call m.conns) m

unfoldable pub remove_connection : ℕ → ConnectionManager → ConnectionManager
remove_connection c m =
    if member c m.conns then after_removal (unlink c (log (cancel c ∷ []) m)) else m

-- The connection becomes busy: it moves to the front.
unfoldable pub on_activated : ℕ → ConnectionManager → ConnectionManager
on_activated c m = record m {
  idle_iterator = skip_over c m.conns m.idle_iterator;
  conns = c ∷ erase c m.conns;
}

abbrev pub last : List ℕ → Option ℕ
last [] = none
last (c ∷ []) = some c
last (c ∷ d ∷ cs) = last (d ∷ cs)

-- `--` of an iterator that points to the end.
abbrev pub or_last : Option ℕ → List ℕ → Option ℕ
or_last none cs = last cs
or_last (some c) cs = some c

-- The connection becomes idle: it moves to the back.
unfoldable pub on_deactivated : ℕ → ConnectionManager → ConnectionManager
on_deactivated c m =
    let moved = erase c m.conns ++ (c ∷ []) in
    let drain = skip_over c m.conns m.drain_iterator in
    record m {
      conns = moved;
      idle_iterator = or_last m.idle_iterator moved;
      drain_iterator = if points_to m.drain_iterator c then or_last drain moved else drain;
    }

-- The assignment that setLoweredIdleTimeout() checks; the first check, of a negative time, always
-- passes here.
unfoldable pub set_lowered_idle_timeout : ℕ → ConnectionManager → Option ConnectionManager
set_lowered_idle_timeout t m =
    if leb t m.timeout then some (record m { idle_threshold = t }) else none
