-- ===== src/Agent/Proxy/Invariant.antt =====
-- What holds of a connection of the proxy at every time.
use provider_agent_proxy.Common.{
  ℕ, arith, ◌≡◌, refl, Bool, true, false, List, [], Option, none, some,
}
use provider_agent_proxy.Agent.Proxy.{
  Call, Client, unconnected, connecting, failed, made, delivered, Connection, fresh, frontend_read,
  read_eof, backend_read, Event, frontend_eof, frontend_bytes, backend_bytes, enabled, handle, Run,
  stop, step,
}

-- The state of the client decides the pointer and whether the frontend is read.
abbrev pub Settled : Client → Option ℕ → Bool → Bool → Type 0
Settled unconnected b t r = (b ≡ none) × (r ≡ false)
Settled connecting b t r = (b ≡ none) × (t ≡ false) × (r ≡ false)
Settled failed b t r = (b ≡ none) × (t ≡ false) × (r ≡ false)
Settled (made p) b t r = (b ≡ none) × (t ≡ false) × (r ≡ false)
Settled (delivered p) b t r = (b ≡ some p) × (t ≡ true) × (r ≡ true)

abbrev pub IsSettled : Connection → Type 0
IsSettled c = Settled c.client c.backend_pipeline c.transport c.reading

abbrev pub state_of : Client → Option ℕ → Bool → Bool → List Call → Connection
state_of cl b t r cs = record {
  backend_pipeline = b;
  transport = t;
  reading = r;
  client = cl;
  calls = cs;
}

handle-Settled :
    (e : Event) (cl : Client) (b : Option ℕ) (t r : Bool) (cs : List Call) (c' : Connection)
    → Settled cl b t r
    → enabled e (state_of cl b t r cs) ≡ true
    → handle e (state_of cl b t r cs) ≡ some c'
    → IsSettled c'
unfolding handle
handle-Settled e cl b t r cs c' h on is = ground arith

pub handle-IsSettled :
    (e : Event) (c c' : Connection)
    → IsSettled c
    → enabled e c ≡ true
    → handle e c ≡ some c'
    → IsSettled c'
handle-IsSettled e c c' h on is =
    handle-Settled e c.client c.backend_pipeline c.transport c.reading c.calls c' h on is

pub Run-IsSettled : (c c' : Connection) (es : List Event) → IsSettled c → Run c es c' → IsSettled c'
Run-IsSettled c c' es h (stop _) = h
Run-IsSettled c c' es h (step e es' _ c₁ _ on is run) =
    Run-IsSettled c₁ c' es' (handle-IsSettled e c c₁ h on is) run

pub fresh-IsSettled : IsSettled (fresh none)
fresh-IsSettled = (refl, refl)

-- The events that come from the frontend's socket.
abbrev pub is_from_frontend : Event → Bool
is_from_frontend (frontend_bytes q) = true
is_from_frontend frontend_eof = true
is_from_frontend _ = false

handle-none :
    (e : Event) (cl : Client) (b : Option ℕ) (t r : Bool) (cs : List Call)
    → Settled cl b t r
    → enabled e (state_of cl b t r cs) ≡ true
    → handle e (state_of cl b t r cs) ≡ none
    → (is_from_frontend e ≡ false) × (p : ℕ) × (cl ≡ made p)
unfolding handle frontend_read read_eof backend_read
handle-none e unconnected b t r cs h on is = absurd (ground arith)
handle-none e connecting b t r cs h on is = absurd (ground arith)
handle-none e failed b t r cs h on is = absurd (ground arith)
handle-none e (made p) b t r cs h on is = (ground arith, p, refl)
handle-none e (delivered p) b t r cs h on is = absurd (ground arith)

-- In a run that begins with a null backendPipeline_, an event that can happen and is not handled,
-- since a null pointer is dereferenced, does not come from the frontend's socket, and falls between
-- the time when the connect has made the backend pipeline and the run of its continuation.
pub failure_before_continuation :
    (es : List Event) (c : Connection) (e : Event)
    → Run (fresh none) es c
    → enabled e c ≡ true
    → handle e c ≡ none
    → (is_from_frontend e ≡ false) × (p : ℕ) × (c.client ≡ made p)
failure_before_continuation es c e run on fails =
    handle-none e c.client c.backend_pipeline c.transport c.reading c.calls
      (Run-IsSettled (fresh none) c es fresh-IsSettled run) on fails

handle-made :
    (cl : Client) (p : ℕ) (q : List ℕ) (b : Option ℕ) (t r : Bool) (cs : List Call)
    → Settled cl b t r
    → cl ≡ made p
    → handle (backend_bytes q) (state_of cl b t r cs) ≡ none
unfolding handle backend_read
handle-made cl p q b t r cs h is = ground arith

-- In a run that begins with a null backendPipeline_, bytes that arrive from the backend after the
-- connect has made its pipeline and before the continuation of the connect runs are an event that
-- can happen, and are not handled: the frontend pipeline, to which they are written, has no
-- transport while it is paused.
pub early_backend_bytes_fail :
    (es : List Event) (c : Connection) (p : ℕ) (q : List ℕ)
    → Run (fresh none) es c
    → c.client ≡ made p
    → (enabled (backend_bytes q) c ≡ true) × (handle (backend_bytes q) c ≡ none)
early_backend_bytes_fail es c p q run is =
    let h = Run-IsSettled (fresh none) c es fresh-IsSettled run in
    (ground arith, handle-made c.client p q c.backend_pipeline c.transport c.reading c.calls h is)

-- In a run that begins with a null backendPipeline_, a connection whose connect has failed is
-- left as it is: no event can happen to it any more, so that the frontend is neither read nor
-- closed.
pub failed_connect_is_final :
    (es es' : List Event) (c c' : Connection)
    → Run (fresh none) es c
    → c.client ≡ failed
    → Run c es' c'
    → (es' ≡ []) × (c' ≡ c)
failed_connect_is_final es es' c c' run is (stop _) = (refl, refl)
failed_connect_is_final es es' c c' run is (step e es'' _ c₁ _ on handled more) = absurd (
    enabled-failed e c.client c.backend_pipeline c.transport c.reading c.calls
      (Run-IsSettled (fresh none) c es fresh-IsSettled run) is on)
  where
    enabled-failed :
        (e : Event) (cl : Client) (b : Option ℕ) (t r : Bool) (cs : List Call)
        → Settled cl b t r
        → cl ≡ failed
        → ¬ (enabled e (state_of cl b t r cs) ≡ true)
    enabled-failed e cl b t r cs h is on = ground arith
