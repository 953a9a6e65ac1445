-- ===== src/Channel/OutputBuffering.antt =====
-- wangle/channel/OutputBufferingHandler.h. A chain of buffers is the list of its bytes. A future that
-- a call of `write` returns is the number of that call.
pub mod Delivery
use provider_agent_proxy.Common.{
  ℕ, Bool, true, false, List, [], ◌∷◌, ◌++◌, Option, none, some, if◌then◌else◌,
}

pub record OutputBufferingHandler : Type 0 where
  -- The futures of sharedPromise_.
  pub waiting : List ℕ
  pub sends : Option (List ℕ)
  pub queue_sends : Bool
  -- isLoopCallbackScheduled()
  pub scheduled : Bool

abbrev pub new_handler : OutputBufferingHandler
new_handler = record { waiting = []; sends = none; queue_sends = true; scheduled = false }

-- What the handler does: a write to the next handler, whose result completes the given futures; the
-- failure of futures; and a close of the next handler.
pub data Effect : Type 0 where
  fire_write : List ℕ → List ℕ → Effect
  fail : List ℕ → Effect
  fire_close : Effect

abbrev pub pending : OutputBufferingHandler → List ℕ
pending h = elim h.sends [ none ↦ [] | some b ↦ b ]

-- Without a callback, buffers or a promise that is waited for.
abbrev pub reset : OutputBufferingHandler → OutputBufferingHandler
reset h = record h { waiting = []; sends = none; scheduled = false }

-- The part of `write` that delays the send.
unfoldable pub delay : ℕ → List ℕ → OutputBufferingHandler → OutputBufferingHandler
delay id buf h = elim h.sends [
  | none ↦ record h { waiting = h.waiting ++ (id ∷ []); sends = some buf; scheduled = true }
  | some b ↦ record h { waiting = h.waiting ++ (id ∷ []); sends = some (b ++ buf) }
]

unfoldable pub write : ℕ → List ℕ → OutputBufferingHandler → OutputBufferingHandler × List Effect
unfolding delay
write id buf h = if h.queue_sends then (delay id buf h, []) else (h, fire_write buf (id ∷ []) ∷ [])

unfoldable pub run_loop_callback : OutputBufferingHandler → OutputBufferingHandler × List Effect
run_loop_callback h = (reset h, fire_write (pending h) h.waiting ∷ [])

-- The promise that is replaced is destroyed, which fails its futures.
unfoldable pub clean_up : OutputBufferingHandler → OutputBufferingHandler × List Effect
clean_up h = (reset h, fail h.waiting ∷ [])

unfoldable pub close : OutputBufferingHandler → OutputBufferingHandler × List Effect
close h = (reset h, fail h.waiting ∷ fire_close ∷ [])

-- The calls, and the end of a round of the event loop, which runs the callback if it is scheduled.
pub data Event : Type 0 where
  writes : ℕ → List ℕ → Event
  loop_ends closes cleans_up : Event

unfoldable pub handle : Event → OutputBufferingHandler → OutputBufferingHandler × List Effect
unfolding write run_loop_callback close clean_up
handle (writes id buf) h = write id buf h
handle loop_ends h = if h.scheduled then run_loop_callback h else (h, [])
handle closes h = close h
handle cleans_up h = clean_up h

unfoldable pub run : List Event → OutputBufferingHandler → OutputBufferingHandler × List Effect
unfolding handle
run [] h = (h, [])
run (e ∷ es) h =
    let (h', effects) = handle e h in let (h'', more) = run es h' in (h'', effects ++ more)
