-- ===== src/Agent/Examples.antt =====
-- The provider agent on concrete strings and on a concrete connection.
use provider_agent_proxy.Common.{ℕ, ◌≡◌, refl, arith, true, false, List, [], ◌∷◌, ◌++◌, none, some}
use provider_agent_proxy.Agent.Split.{find_first_of, string_split}
use provider_agent_proxy.Agent.Split.Pieces.{Cuts, split-Cuts}
use provider_agent_proxy.Agent.Proxy.{
  connect, write_to, made, failed, delivered, Connection, fresh, Event, accepted, connect_makes,
  connect_continues, connect_fails, frontend_bytes, backend_bytes, enabled, handle, Run, stop, step,
}
use provider_agent_proxy.Agent.Proxy.Invariant.{
  is_from_frontend, failure_before_continuation, early_backend_bytes_fail,
}
use provider_agent_proxy.Agent.Proxy.Forwarding.{Forwards, run-Forwards}
use provider_agent_proxy.Agent.Proxy.Backend.{Called, run-Called}

-- "a,,b,c" and the comma.
abbrev text : List ℕ
text = 97 ∷ 44 ∷ 44 ∷ 98 ∷ 44 ∷ 99 ∷ []

abbrev comma : List ℕ
comma = 44 ∷ []

split-Cuts_example :
    (pieces : List (List ℕ)) × (string_split text comma 3 [] ≡ [] ++ pieces)
    × Cuts comma 3 0 pieces text
split-Cuts_example = split-Cuts 97 (44 ∷ 44 ∷ 98 ∷ 44 ∷ 99 ∷ []) comma 3 [] (omega arith)

text_pieces : string_split text comma 3 [] ≡ (97 ∷ []) ∷ [] ∷ (98 ∷ 44 ∷ 99 ∷ []) ∷ []
unfolding string_split find_first_of
text_pieces = refl

-- The backend pipeline has been made, and the continuation of the connect has not run.
abbrev at_made : Connection
at_made = record {
  backend_pipeline = none;
  transport = false;
  reading = false;
  client = made 7;
  calls = connect ∷ [];
}

made_run : Run (fresh none) (accepted ∷ connect_makes 7 ∷ []) at_made
unfolding handle
made_run = step accepted _ _ _ _ refl refl (step (connect_makes 7) _ _ _ _ refl refl (stop _))

abbrev at_failed : Connection
at_failed = record at_made { client = failed }

failed_run : Run (fresh none) (accepted ∷ connect_fails ∷ []) at_failed
unfolding handle
failed_run = step accepted _ _ _ _ refl refl (step connect_fails _ _ _ _ refl refl (stop _))

abbrev forwarded : Connection
forwarded = record {
  backend_pipeline = some 7;
  transport = true;
  reading = true;
  client = delivered 7;
  calls = connect ∷ write_to 7 (1 ∷ 2 ∷ []) ∷ [];
}

abbrev forwarded_events : List Event
forwarded_events = accepted ∷ connect_makes 7 ∷ connect_continues ∷ frontend_bytes (1 ∷ 2 ∷ []) ∷ []

forwarded_run : Run (fresh none) forwarded_events forwarded
unfolding handle
forwarded_run = step accepted _ _ _ _ refl refl (
    step (connect_makes 7) _ _ _ _ refl refl (
      step connect_continues _ _ _ _ refl refl
        (step (frontend_bytes (1 ∷ 2 ∷ [])) _ _ _ _ refl refl (stop _))))

run-Forwards_example : Forwards forwarded_events (fresh none) forwarded
run-Forwards_example = run-Forwards forwarded_events (fresh none) forwarded forwarded_run

run-Called_example : Called (delivered 7) (connect ∷ write_to 7 (1 ∷ 2 ∷ []) ∷ [])
run-Called_example = run-Called forwarded_events forwarded forwarded_run

early_bytes_fail : handle (backend_bytes (3 ∷ [])) at_made ≡ none
unfolding handle
early_bytes_fail = refl

failure_before_continuation_example :
    (is_from_frontend (backend_bytes (3 ∷ [])) ≡ false) × (p : ℕ) × (at_made.client ≡ made p)
failure_before_continuation_example =
    failure_before_continuation (accepted ∷ connect_makes 7 ∷ []) at_made (backend_bytes (3 ∷ []))
      made_run refl early_bytes_fail

early_backend_bytes_fail_example :
    (enabled (backend_bytes (3 ∷ [])) at_made ≡ true)
    × (handle (backend_bytes (3 ∷ [])) at_made ≡ none)
early_backend_bytes_fail_example =
    early_backend_bytes_fail (accepted ∷ connect_makes 7 ∷ []) at_made 7 (3 ∷ []) made_run refl
