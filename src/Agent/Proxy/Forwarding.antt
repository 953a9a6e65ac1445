-- ===== src/Agent/Proxy/Forwarding.antt =====
-- What the proxy forwards.
use mathlib.Core.List.{append_assoc, append-nil}
use provider_agent_proxy.Common.{
  ℕ, arith, ◌≡◌, refl, sym, ap, ◌∙◌, List, [], ◌∷◌, ◌++◌, none, some, Option-cases, inl, inr,
}
use provider_agent_proxy.Agent.Proxy.{
  Call, connect, write_to, close, write_frontend, close_frontend, Client, unconnected, connecting,
  failed, made, delivered, Connection, pipeline_active, connected, with_transport, frontend_read,
  read_eof, backend_read, Event, accepted, connect_continues, connect_fails, frontend_eof,
  backend_closed, connect_makes, frontend_bytes, backend_bytes, continue_with, handle, Run, stop,
  step,
}

-- The bytes written to a backend pipeline, call by call, and those written to the frontend.
abbrev pub to_backend : List Call → List (List ℕ)
to_backend [] = []
to_backend (write_to p q ∷ cs) = q ∷ to_backend cs
to_backend (connect ∷ cs) = to_backend cs
to_backend (close p ∷ cs) = to_backend cs
to_backend (write_frontend q ∷ cs) = to_backend cs
to_backend (close_frontend ∷ cs) = to_backend cs

abbrev pub to_frontend : List Call → List (List ℕ)
to_frontend [] = []
to_frontend (write_to p q ∷ cs) = to_frontend cs
to_frontend (connect ∷ cs) = to_frontend cs
to_frontend (close p ∷ cs) = to_frontend cs
to_frontend (write_frontend q ∷ cs) = q ∷ to_frontend cs
to_frontend (close_frontend ∷ cs) = to_frontend cs

-- The bytes that an event brings from each side.
abbrev pub from_frontend : Event → List (List ℕ)
from_frontend (frontend_bytes q) = q ∷ []
from_frontend _ = []

abbrev pub from_backend : Event → List (List ℕ)
from_backend (backend_bytes q) = q ∷ []
from_backend _ = []

abbrev pub all_from : (Event → List (List ℕ)) → List Event → List (List ℕ)
all_from bytes [] = []
all_from bytes (e ∷ es) = bytes e ++ all_from bytes es

to_backend-append : (cs ds : List Call) → to_backend (cs ++ ds) ≡ to_backend cs ++ to_backend ds
to_backend-append [] ds = refl
to_backend-append (write_to p q ∷ cs) ds = ap (◌∷◌ q) (to_backend-append cs ds)
to_backend-append (connect ∷ cs) ds = to_backend-append cs ds
to_backend-append (close p ∷ cs) ds = to_backend-append cs ds
to_backend-append (write_frontend q ∷ cs) ds = to_backend-append cs ds
to_backend-append (close_frontend ∷ cs) ds = to_backend-append cs ds

to_frontend-append : (cs ds : List Call) → to_frontend (cs ++ ds) ≡ to_frontend cs ++ to_frontend ds
to_frontend-append [] ds = refl
to_frontend-append (write_frontend q ∷ cs) ds = ap (◌∷◌ q) (to_frontend-append cs ds)
to_frontend-append (connect ∷ cs) ds = to_frontend-append cs ds
to_frontend-append (close p ∷ cs) ds = to_frontend-append cs ds
to_frontend-append (write_to p q ∷ cs) ds = to_frontend-append cs ds
to_frontend-append (close_frontend ∷ cs) ds = to_frontend-append cs ds

-- The calls that an event adds.
pub data Adds (e : Event) (c c' : Connection) : Type 0 where
  adds :
      (cs : List Call)
      → c'.calls ≡ c.calls ++ cs
      → to_backend cs ≡ from_frontend e
      → to_frontend cs ≡ from_backend e
      → Adds e c c'

Adds-none :
    (e : Event) (c c' : Connection)
    → from_frontend e ≡ []
    → from_backend e ≡ []
    → c'.calls ≡ c.calls
    → Adds e c c'
Adds-none e c c' f b same = adds [] (same ∙ sym (append-nil c.calls)) (sym f) (sym b)

pipeline_active-calls :
    (e : Event) (c : Connection)
    → from_frontend e ≡ []
    → from_backend e ≡ []
    → Adds e c (pipeline_active c)
unfolding pipeline_active
pipeline_active-calls e c f b =
    elim c.backend_pipeline
      as (λ o. Adds e c (pipeline_active (record c { backend_pipeline = o }))) [
        | none ↦ adds (connect ∷ []) refl (sym f) (sym b)
        | some p ↦ Adds-none e c _ f b refl
      ]

some_injective : {a b : Connection} → some a ≡ some b → a ≡ b
some_injective e = cc

continue_with-calls : (cl : Client) (c : Connection) → Adds connect_continues c (continue_with cl c)
unfolding continue_with connected
continue_with-calls (made p) c =
    let c₀ = record c { backend_pipeline = some p; client = delivered p } in
    elim (pipeline_active-calls connect_continues c₀ refl refl) [ adds cs e f b ↦ adds cs e f b ]
continue_with-calls unconnected c = Adds-none connect_continues c c refl refl refl
continue_with-calls connecting c = Adds-none connect_continues c c refl refl refl
continue_with-calls failed c = Adds-none connect_continues c c refl refl refl
continue_with-calls (delivered p) c = Adds-none connect_continues c c refl refl refl

read-calls :
    (q : List ℕ) (c c' : Connection) → frontend_read q c ≡ some c' → Adds (frontend_bytes q) c c'
unfolding frontend_read
read-calls q c c' is = elim (Option-cases c.backend_pipeline) [
  | inl z ↦ absurd (ground arith)
  | inr (p, s) ↦ adds (write_to p q ∷ []) (ground arith) refl refl
]

eof-calls : (c c' : Connection) → read_eof c ≡ some c' → Adds frontend_eof c c'
unfolding read_eof
eof-calls c c' is = elim (Option-cases c.backend_pipeline) [
  | inl z ↦ absurd (ground arith)
  | inr (p, s) ↦ adds (close p ∷ []) (ground arith) refl refl
]

backend-calls :
    (q : List ℕ) (c c' : Connection) → backend_read q c ≡ some c' → Adds (backend_bytes q) c c'
unfolding backend_read
backend-calls q c c' is = adds (write_frontend q ∷ []) (ground arith) refl refl

closed-calls :
    (c c' : Connection) → with_transport close_frontend c ≡ some c' → Adds backend_closed c c'
closed-calls c c' is = adds (close_frontend ∷ []) (ground arith) refl refl

handle-Adds : (e : Event) (c c' : Connection) → handle e c ≡ some c' → Adds e c c'
unfolding handle
handle-Adds accepted c c' is = rw (← some_injective is) (pipeline_active-calls accepted c refl refl)
handle-Adds (connect_makes p) c c' is =
    rw (← some_injective is) (Adds-none (connect_makes p) c _ refl refl refl)
handle-Adds connect_continues c c' is = rw (← some_injective is) (continue_with-calls c.client c)
handle-Adds connect_fails c c' is =
    rw (← some_injective is) (Adds-none connect_fails c _ refl refl refl)
handle-Adds (frontend_bytes q) c c' is = read-calls q c c' is
handle-Adds frontend_eof c c' is = eof-calls c c' is
handle-Adds (backend_bytes q) c c' is = backend-calls q c c' is
handle-Adds backend_closed c c' is = closed-calls c c' is

-- What a run writes to each side is what came from the other, in order and once.
pub data Forwards (es : List Event) (c c' : Connection) : Type 0 where
  forwards :
      to_backend c'.calls ≡ to_backend c.calls ++ all_from from_frontend es
      → to_frontend c'.calls ≡ to_frontend c.calls ++ all_from from_backend es
      → Forwards es c c'

append_step : (a b c d e f : List (List ℕ)) → a ≡ b ++ c → b ≡ d ++ e → e ≡ f → a ≡ d ++ (f ++ c)
append_step a b c d e f h g k = h ∙ ap (λ x. x ++ c) (g ∙ ap (◌++◌ d) k) ∙ append_assoc d f c

-- In every run of a connection, whatever the state that it begins in, the bytes that it writes to
-- the backend are those that arrived from the frontend, and the bytes that it writes to the
-- frontend are those that arrived from the backend, in the order and in the pieces in which they
-- arrived.
pub run-Forwards : (es : List Event) (c c' : Connection) → Run c es c' → Forwards es c c'
run-Forwards es c c' (stop _) = forwards (sym (append-nil _)) (sym (append-nil _))
run-Forwards es c c' (step e es' _ c₁ _ on is run) = elim (run-Forwards es' c₁ c' run) [
  | forwards f b ↦ elim (handle-Adds e c c₁ is) [
    | adds cs more tf tb ↦
        forwards (append_step _ _ _ _ _ _ f (ap to_backend more ∙ to_backend-append c.calls cs) tf)
          (append_step _ _ _ _ _ _ b (ap to_frontend more ∙ to_frontend-append c.calls cs) tb)
  ]
]
