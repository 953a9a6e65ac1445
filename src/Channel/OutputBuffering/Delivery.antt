-- ===== src/Channel/OutputBuffering/Delivery.antt =====
-- What becomes of the buffers and of the futures of OutputBufferingHandler.
use mathlib.Core.List.{append_assoc, append-nil}
use provider_agent_proxy.Common.{ℕ, ◌≡◌, refl, sym, ap, ◌∙◌, true, List, [], ◌∷◌, ◌++◌, some}
use provider_agent_proxy.Channel.OutputBuffering.{
  OutputBufferingHandler, Effect, fire_write, fail, fire_close, pending, delay, Event, writes,
  loop_ends, closes, cleans_up, handle, run, new_handler,
}

abbrev pub filled_with : List ℕ → List ℕ → OutputBufferingHandler
filled_with b ids = record { waiting = ids; sends = some b; queue_sends = true; scheduled = true }

-- The handler is as new, or there are buffers and a callback that will send them.
pub data IsQueueing (h : OutputBufferingHandler) : Type 0 where
  idle : h ≡ new_handler → IsQueueing h
  filled : (b ids : List ℕ) → h ≡ filled_with b ids → IsQueueing h

-- The futures that effects complete or fail, and that events create.
abbrev pub settled : List Effect → List ℕ
settled [] = []
settled (fire_write b ids ∷ es) = ids ++ settled es
settled (fail ids ∷ es) = ids ++ settled es
settled (fire_close ∷ es) = settled es

abbrev pub created : List Event → List ℕ
created [] = []
created (writes id b ∷ es) = id ∷ created es
created (loop_ends ∷ es) = created es
created (closes ∷ es) = created es
created (cleans_up ∷ es) = created es

-- The bytes that are written to the next handler, and that are given to `write`.
abbrev pub sent : List Effect → List ℕ
sent [] = []
sent (fire_write b ids ∷ es) = b ++ sent es
sent (fail ids ∷ es) = sent es
sent (fire_close ∷ es) = sent es

abbrev pub given : List Event → List ℕ
given [] = []
given (writes id b ∷ es) = b ++ given es
given (loop_ends ∷ es) = given es
given (closes ∷ es) = given es
given (cleans_up ∷ es) = given es

-- Neither close() nor cleanUp().
abbrev pub StaysOpen : List Event → Type 0
StaysOpen [] = Unit {0}
StaysOpen (writes id b ∷ es) = StaysOpen es
StaysOpen (loop_ends ∷ es) = StaysOpen es
StaysOpen (closes ∷ es) = ⊥
StaysOpen (cleans_up ∷ es) = ⊥

settled-append : (es fs : List Effect) → settled (es ++ fs) ≡ settled es ++ settled fs
settled-append [] fs = refl
settled-append (fire_write b ids ∷ es) fs =
    ap (◌++◌ ids) (settled-append es fs) ∙ sym (append_assoc ids (settled es) (settled fs))
settled-append (fail ids ∷ es) fs =
    ap (◌++◌ ids) (settled-append es fs) ∙ sym (append_assoc ids (settled es) (settled fs))
settled-append (fire_close ∷ es) fs = settled-append es fs

sent-append : (es fs : List Effect) → sent (es ++ fs) ≡ sent es ++ sent fs
sent-append [] fs = refl
sent-append (fire_write b ids ∷ es) fs =
    ap (◌++◌ b) (sent-append es fs) ∙ sym (append_assoc b (sent es) (sent fs))
sent-append (fail ids ∷ es) fs = sent-append es fs
sent-append (fire_close ∷ es) fs = sent-append es fs

-- What an event does to a handler of either kind.
data Handled (e : Event) (h : OutputBufferingHandler) : Type 0 where
  handled :
      IsQueueing (handle e h).0
      → h.waiting ++ created (e ∷ []) ≡ settled (handle e h).1 ++ (handle e h).0.waiting
      → (StaysOpen (e ∷ [])
          → pending h ++ given (e ∷ []) ≡ sent (handle e h).1 ++ pending (handle e h).0)
      → Handled e h

idle-Handled : (e : Event) → Handled e new_handler
unfolding handle delay
idle-Handled (writes id b) = handled (filled b (id ∷ []) refl) refl (λ _. append-nil b)
idle-Handled loop_ends = handled (idle refl) refl (λ _. refl)
idle-Handled closes = handled (idle refl) refl (λ h. absurd h)
idle-Handled cleans_up = handled (idle refl) refl (λ h. absurd h)

filled-Handled : (e : Event) (b ids : List ℕ) → Handled e (filled_with b ids)
unfolding handle delay
filled-Handled (writes id b') b ids =
    handled (filled (b ++ b') (ids ++ (id ∷ [])) refl) refl (λ _. ap (◌++◌ b) (append-nil b'))
filled-Handled loop_ends b ids =
    handled (idle refl) (sym (append-nil (ids ++ []))) (λ _. sym (append-nil (b ++ [])))
filled-Handled closes b ids = handled (idle refl) (sym (append-nil (ids ++ []))) (λ h. absurd h)
filled-Handled cleans_up b ids = handled (idle refl) (sym (append-nil (ids ++ []))) (λ h. absurd h)

handle-Handled : (e : Event) (h : OutputBufferingHandler) → IsQueueing h → Handled e h
handle-Handled e h (idle i) = rw i (idle-Handled e)
handle-Handled e h (filled b ids i) = rw i (filled-Handled e b ids)

created-cons : (e : Event) (es : List Event) → created (e ∷ es) ≡ created (e ∷ []) ++ created es
created-cons (writes id b) es = refl
created-cons loop_ends es = refl
created-cons closes es = refl
created-cons cleans_up es = refl

given-cons : (e : Event) (es : List Event) → given (e ∷ es) ≡ given (e ∷ []) ++ given es
given-cons (writes id b) es = ap (λ x. x ++ given es) (sym (append-nil b))
given-cons loop_ends es = refl
given-cons closes es = refl
given-cons cleans_up es = refl

StaysOpen-cons :
    (e : Event) (es : List Event) → StaysOpen (e ∷ es) → StaysOpen (e ∷ []) × StaysOpen es
StaysOpen-cons (writes id b) es h = (tt, h)
StaysOpen-cons loop_ends es h = (tt, h)
StaysOpen-cons closes es h = absurd h
StaysOpen-cons cleans_up es h = absurd h

-- The balance of a run from that of its first event and that of the rest.
balance :
    (x y w w' w'' first rest : List ℕ)
    → w ++ first ≡ x ++ w'
    → y ++ w'' ≡ w' ++ rest
    → (x ++ y) ++ w'' ≡ w ++ (first ++ rest)
balance x y w w' w'' first rest step tail =
    append_assoc x y w''
    ∙ ap (◌++◌ x) tail
    ∙ sym (append_assoc x w' rest)
    ∙ ap (λ l. l ++ rest) (sym step)
    ∙ append_assoc w first rest

-- From a handler that is as new, or that holds buffers and has a callback scheduled, and whatever
-- the calls and the rounds of the event loop, every future that `write` returns is completed or
-- failed once, in the order of the calls, or still waits; and the handler is then of one of these
-- two kinds again.
pub run-settled :
    (es : List Event) (h : OutputBufferingHandler)
    → IsQueueing h
    → (settled (run es h).1 ++ (run es h).0.waiting ≡ h.waiting ++ created es)
      × IsQueueing (run es h).0
unfolding run
run-settled [] h k = (sym (append-nil h.waiting), k)
run-settled (e ∷ es) h k = elim (handle-Handled e h k) [
  | handled k' waits _ ↦
      let (rest, k'') = run-settled es (handle e h).0 k' in
      (
        ap (λ l. l ++ (run es (handle e h).0).0.waiting)
              (settled-append (handle e h).1 (run es (handle e h).0).1)
            ∙ balance (settled (handle e h).1) (settled (run es (handle e h).0).1) h.waiting
                (handle e h).0.waiting (run es (handle e h).0).0.waiting (created (e ∷ []))
                (created es) waits rest
            ∙ ap (◌++◌ h.waiting) (sym (created-cons e es)),
        k'',
      )
]

-- From a handler that is as new, or that holds buffers and has a callback scheduled, and while it
-- is neither closed nor cleaned up, the bytes that it has written to the next handler, and those
-- that it still holds, are the bytes that it held and those given to `write`, in the order of the
-- calls.
pub run-sent :
    (es : List Event) (h : OutputBufferingHandler)
    → IsQueueing h
    → StaysOpen es
    → sent (run es h).1 ++ pending (run es h).0 ≡ pending h ++ given es
unfolding run
run-sent [] h k open_still = sym (append-nil (pending h))
run-sent (e ∷ es) h k open_still = elim (handle-Handled e h k) [
  | handled k' _ flows ↦
      let (now, later) = StaysOpen-cons e es open_still in
      ap (λ l. l ++ pending (run es (handle e h).0).0)
        (sent-append (handle e h).1 (run es (handle e h).0).1)
      ∙ balance (sent (handle e h).1) (sent (run es (handle e h).0).1) (pending h)
          (pending (handle e h).0) (pending (run es (handle e h).0).0) (given (e ∷ [])) (given es)
          (flows now) (run-sent es (handle e h).0 k' later)
      ∙ ap (◌++◌ (pending h)) (sym (given-cons e es))
]
