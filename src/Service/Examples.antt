-- ===== src/Service/Examples.antt =====
-- Two requests whose responses come in the other order.
use provider_agent_proxy.Common.{ℕ, ◌+◌, ◌<◌, ◌≤◌, ◌≡◌, refl, arith, List, [], ◌∷◌, Differs}
use provider_agent_proxy.Service.ServerDispatcher.{new_dispatcher, Event, reads, responds, run}
use provider_agent_proxy.Service.ServerDispatcher.Order.{answers}
use provider_agent_proxy.Service.ServerDispatcher.Runs.{Fits, responded_after, run-answers}

abbrev swapped : List Event
swapped = reads ∷ reads ∷ responds 2 ∷ responds 1 ∷ []

abbrev plus_ten : ℕ → ℕ
plus_ten i = i + 10

swapped-Fits : Fits swapped 1 []
swapped-Fits = (
  omega arith,
  (omega arith, (omega arith, omega arith, tt, (omega arith, omega arith, (refl, tt), tt))),
)

run-swapped : (run ℕ plus_ten swapped (new_dispatcher ℕ)).1 ≡ 11 ∷ 12 ∷ []
unfolding run
run-swapped = refl

run-answers_example :
    (k : ℕ) × ((run ℕ plus_ten swapped (new_dispatcher ℕ)).1 ≡ answers ℕ plus_ten 1 k)
    × ((i : ℕ) → 0 < i → i ≤ k → ¬ Differs i (responded_after swapped []))
    × Differs (k + 1) (responded_after swapped [])
run-answers_example = run-answers ℕ plus_ten swapped swapped-Fits
