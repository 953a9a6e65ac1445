-- ===== src/Agent/Proxy/Backend.antt =====
-- Which calls a connection of the proxy makes, and to which backend.
use provider_agent_proxy.Common.{
  ℕ, arith, ◌≡◌, refl, ap, ◌∙◌, Bool, true, List, [], ◌∷◌, ◌++◌, Option, none, some, All,
}
use provider_agent_proxy.Agent.Proxy.{
  Call, connect, write_to, close, write_frontend, close_frontend, Client, unconnected, connecting,
  failed, made, delivered, Connection, fresh, pipeline_active, transport_active, frontend_read,
  read_eof, backend_read, Event, accepted, connect_continues, connect_fails, frontend_eof,
  backend_closed, connect_makes, frontend_bytes, backend_bytes, enabled, handle, Run, stop, step,
}
use provider_agent_proxy.Agent.Proxy.Invariant.{
  Settled, IsSettled, state_of, handle-IsSettled, fresh-IsSettled,
}

-- A call to the given backend, or to the frontend.
abbrev pub OnlyTo : ℕ → Call → Type 0
OnlyTo p (write_to p' q) = p' ≡ p
OnlyTo p (close p') = p' ≡ p
OnlyTo p (write_frontend q) = Unit {0}
OnlyTo p close_frontend = Unit {0}
OnlyTo p connect = ⊥

-- The calls so far, by the state of the client: none, then one connect, and then only calls to the
-- pipeline that the connect has delivered or to the frontend.
abbrev pub Called : Client → List Call → Type 0
Called unconnected cs = cs ≡ []
Called connecting cs = cs ≡ connect ∷ []
Called failed cs = cs ≡ connect ∷ []
Called (made p) cs = cs ≡ connect ∷ []
Called (delivered p) cs = (rest : List Call) × (cs ≡ connect ∷ rest) × All (OnlyTo p) rest

All-snoc :
    (p : ℕ) (cs : List Call) (call : Call)
    → All (OnlyTo p) cs
    → OnlyTo p call
    → All (OnlyTo p) (cs ++ (call ∷ []))
All-snoc p [] call h o = (o, tt)
All-snoc p (c ∷ cs) call h o = (h.0, All-snoc p cs call h.1 o)

one_more :
    (p : ℕ) (cs cs' : List Call) (call : Call)
    → Called (delivered p) cs
    → OnlyTo p call
    → cs' ≡ cs ++ (call ∷ [])
    → Called (delivered p) cs'
one_more p cs cs' call (rest, e, only) o is =
    (rest ++ (call ∷ []), is ∙ ap (λ x. x ++ (call ∷ [])) e, All-snoc p rest call only o)

Called-once_more :
    (p : ℕ) (c' : Connection) (cs : List Call) (call : Call)
    → c'.client ≡ delivered p
    → c'.calls ≡ cs ++ (call ∷ [])
    → Called (delivered p) cs
    → OnlyTo p call
    → Called c'.client c'.calls
Called-once_more p c' cs call client calls h o = rw client (one_more p cs c'.calls call h o calls)

handle-delivered :
    (e : Event) (p : ℕ) (b : Option ℕ) (t r : Bool) (cs : List Call) (c' : Connection)
    → Settled (delivered p) b t r
    → Called (delivered p) cs
    → enabled e (state_of (delivered p) b t r cs) ≡ true
    → handle e (state_of (delivered p) b t r cs) ≡ some c'
    → Called c'.client c'.calls
unfolding handle frontend_read read_eof backend_read
handle-delivered accepted p b t r cs c' s h on is = absurd (ground arith)
handle-delivered (connect_makes p') p b t r cs c' s h on is = absurd (ground arith)
handle-delivered connect_continues p b t r cs c' s h on is = absurd (ground arith)
handle-delivered connect_fails p b t r cs c' s h on is = absurd (ground arith)
handle-delivered (frontend_bytes q) p b t r cs c' s h on is =
    Called-once_more p c' cs (write_to p q) (ground arith) (ground arith) h refl
handle-delivered frontend_eof p b t r cs c' s h on is =
    Called-once_more p c' cs (close p) (ground arith) (ground arith) h refl
handle-delivered (backend_bytes q) p b t r cs c' s h on is =
    Called-once_more p c' cs (write_frontend q) (ground arith) (ground arith) h tt
handle-delivered backend_closed p b t r cs c' s h on is =
    Called-once_more p c' cs close_frontend (ground arith) (ground arith) h tt

handle-Called :
    (e : Event) (cl : Client) (b : Option ℕ) (t r : Bool) (cs : List Call) (c' : Connection)
    → Settled cl b t r
    → Called cl cs
    → enabled e (state_of cl b t r cs) ≡ true
    → handle e (state_of cl b t r cs) ≡ some c'
    → Called c'.client c'.calls
unfolding handle
handle-Called e unconnected b t r cs c' s h on is = ground arith
handle-Called e connecting b t r cs c' s h on is = ground arith
handle-Called e failed b t r cs c' s h on is = ground arith
handle-Called e (made p) b t r cs c' s h on is = ground arith
handle-Called e (delivered p) b t r cs c' s h on is = handle-delivered e p b t r cs c' s h on is

Run-Called :
    (es : List Event) (c c' : Connection)
    → IsSettled c
    → Called c.client c.calls
    → Run c es c'
    → Called c'.client c'.calls
Run-Called es c c' s h (stop _) = h
Run-Called es c c' s h (step e es' _ c₁ _ on is run) =
    Run-Called es' c₁ c' (handle-IsSettled e c c₁ s on is)
      (handle-Called e c.client c.backend_pipeline c.transport c.reading c.calls c₁ s h on is) run

-- A connection that begins with a null backendPipeline_ connects once at most, as its first call, and
-- before that connect has delivered a pipeline it makes no other call; from then on each call goes
-- to that pipeline or to the frontend.
pub run-Called :
    (es : List Event) (c : Connection) → Run (fresh none) es c → Called c.client c.calls
run-Called es c run = Run-Called es (fresh none) c fresh-IsSettled refl run

-- With any other value in backendPipeline_, which the constructor leaves uninitialised, accepting the
-- connection does not connect, and what the frontend sends is written to that value.
pub stray_pointer :
    (p : ℕ) (q : List ℕ) (c : Connection)
    → Run (fresh (some p)) (accepted ∷ frontend_bytes q ∷ []) c
    → c.calls ≡ write_to p q ∷ []
unfolding handle pipeline_active transport_active frontend_read
stray_pointer p q c (step _ _ _ c₁ _ on is (step _ _ _ c₂ _ on' is' (stop _))) = ground arith
