-- ===== src/V3/Examples.antt =====
-- The etcd client on concrete keys and replies, against a store in memory.
use provider_agent_proxy.Common.{
  ℕ, ◌≡◌, ◌↔◌, refl, true, false, List, [], ◌∷◌, none, some, arith, if◌then◌else◌,
}
use provider_agent_proxy.Common.Int.{pos}
use provider_agent_proxy.V3.Messages.{
  Kv, RangeRequest, DeleteRangeRequest, WatchCreateRequest, by_key, ascend, put, WatchResponse,
}
use provider_agent_proxy.V3.Response.{
  default_kv, set_error, set_action_of, create_action, update_action, compareswap_action,
  comparedelete_action,
}
use provider_agent_proxy.V3.Action.{
  ActionParameters, default_parameters, prev_value, range_end_of, range_end_for,
}
use provider_agent_proxy.V3.Action.Get
use provider_agent_proxy.V3.Action.Delete
use provider_agent_proxy.V3.Action.Set
use provider_agent_proxy.V3.Action.Watch
use provider_agent_proxy.V3.Prefix.{Selects}
use provider_agent_proxy.V3.Prefix.Requests.{Asked, request-Asked}
use provider_agent_proxy.V3.Watching.{
  this_tag, writes_done_tag, create_tag, Completion, WatchAction, wait_with_callback,
}
use provider_agent_proxy.V3.Watching.Loops.{Delivers, completed_reads, wait_with_callback-Delivers}
use provider_agent_proxy.V3.Server.Replies.{read_back}
use provider_agent_proxy.V3.Server.Memory.{memory, MemoryStore}
use provider_agent_proxy.V3.Server.Interface.{bytes_eq}
use provider_agent_proxy.V3.Server.Actions.{
  set, update, compare_and_swap, compare_and_delete, Wrote, Refused,
}
use provider_agent_proxy.V3.Server.Setting.{set_absent, create_present}
use provider_agent_proxy.V3.Server.Updating.{update_present}
use provider_agent_proxy.V3.Server.Swapping.{swap_refusal, swap_matching, swap_differing}
use provider_agent_proxy.V3.Server.Deleting.{Removed, delete_matching, delete_differing}

abbrev some_key : List ℕ
some_key = 97 ∷ 98 ∷ []

abbrev parameters : ActionParameters
parameters = record default_parameters { key = some_key; value = 50 ∷ []; old_value = 49 ∷ [] }

-- The store without keys, and the one that holds "1" or "3" under the key.
abbrev nothing : MemoryStore
nothing k = none

abbrev held : ℕ → Kv
held v = record default_kv { key = some_key; value = v ∷ []; version = pos 1; mod_revision = pos 1 }

abbrev holding : ℕ → MemoryStore
holding v k = if bytes_eq k some_key then some (held v) else none

set_absent_example :
    Wrote memory parameters
      (Set.action_of true)
      nothing
      (set memory parameters true nothing).0
      (set memory parameters true nothing).1
set_absent_example = set_absent memory parameters true nothing refl refl

create_present_example :
    Refused memory
      (holding 49)
      (set memory parameters true (holding 49)).0
      (set memory parameters true (holding 49)).1
      (λ index.
        set_error
          (set_action_of (read_back index (some (held 49))) create_action)
          (pos 105)
          "Key already exists")
create_present_example = create_present memory parameters (holding 49) (held 49) refl refl

update_present_example :
    Wrote memory parameters update_action
      (holding 49)
      (update memory parameters (holding 49)).0
      (update memory parameters (holding 49)).1
update_present_example = update_present memory parameters (holding 49) (held 49) refl refl

swap_matching_example :
    Wrote memory parameters compareswap_action
      (holding 49)
      (compare_and_swap memory parameters prev_value (holding 49)).0
      (compare_and_swap memory parameters prev_value (holding 49)).1
swap_matching_example = swap_matching memory parameters prev_value (holding 49) refl refl

swap_differing_example :
    Refused memory
      (holding 51)
      (compare_and_swap memory parameters prev_value (holding 51)).0
      (compare_and_swap memory parameters prev_value (holding 51)).1
      (swap_refusal memory (some (held 51)))
swap_differing_example = swap_differing memory parameters prev_value (holding 51) refl refl

delete_matching_example :
    Removed memory parameters
      (holding 49)
      (compare_and_delete memory parameters prev_value (holding 49)).0
      (compare_and_delete memory parameters prev_value (holding 49)).1
delete_matching_example = delete_matching memory parameters prev_value (holding 49) refl refl

delete_differing_example :
    Refused memory nothing
      (compare_and_delete memory parameters prev_value nothing).0
      (compare_and_delete memory parameters prev_value nothing).1
      (λ index.
        set_error
          (set_action_of (read_back index none) comparedelete_action)
          (pos 101)
          "Compare failed")
delete_differing_example = delete_differing memory parameters prev_value nothing refl refl

-- Requests for the keys with the prefix "ab".
abbrev prefixed : ActionParameters
prefixed = record parameters { with_prefix = true }

abbrev get_prefixed : RangeRequest
get_prefixed = record {
  key = some_key;
  range_end = 97 ∷ 99 ∷ [];
  sort_target = by_key;
  sort_order = ascend;
}

abbrev delete_prefixed : DeleteRangeRequest
delete_prefixed = record { key = some_key; range_end = 97 ∷ 99 ∷ []; prev_kv = true }

abbrev watch_prefixed : WatchCreateRequest
watch_prefixed = record {
  key = some_key;
  range_end = 97 ∷ 99 ∷ [];
  start_revision = pos 0;
  prev_kv = true;
}

gets_prefixed : Get.request prefixed ≡ some get_prefixed
unfolding Get.request range_end_for range_end_of
gets_prefixed = refl

deletes_prefixed : Delete.request prefixed ≡ some delete_prefixed
unfolding Delete.request range_end_for range_end_of
deletes_prefixed = refl

watches_prefixed : Watch.request prefixed ≡ some watch_prefixed
unfolding Watch.request range_end_for range_end_of
watches_prefixed = refl

request-Asked_example :
    (Selects some_key (97 ∷ 99 ∷ []) (97 ∷ 98 ∷ 1 ∷ []) ↔ Asked prefixed (97 ∷ 98 ∷ 1 ∷ []))
    × (Selects some_key (97 ∷ 99 ∷ []) (97 ∷ 98 ∷ 1 ∷ []) ↔ Asked prefixed (97 ∷ 98 ∷ 1 ∷ []))
    × (Selects some_key (97 ∷ 99 ∷ []) (97 ∷ 98 ∷ 1 ∷ []) ↔ Asked prefixed (97 ∷ 98 ∷ 1 ∷ []))
request-Asked_example =
    request-Asked prefixed (97 ∷ 98 ∷ 1 ∷ []) get_prefixed delete_prefixed watch_prefixed
      (omega arith) gets_prefixed deletes_prefixed watches_prefixed

wraps_around : range_end_of (97 ∷ 255 ∷ []) ≡ some (97 ∷ 0 ∷ [])
unfolding range_end_of
wraps_around = refl

abbrev no_events : WatchResponse
no_events = record { revision = pos 1; events = [] }

abbrev one_event : WatchResponse
one_event = record {
  revision = pos 2;
  events = record { type = put; kv = held 49; prev_kv = none } ∷ [];
}

abbrev watching : WatchAction
watching = record { reply = no_events; is_cancelled = false }

abbrev completions : List Completion
completions =
    record { tag = create_tag; success = true; reply = no_events }
    ∷ record { tag = this_tag; success = true; reply = no_events }
    ∷ record { tag = this_tag; success = true; reply = one_event }
    ∷ record { tag = writes_done_tag; success = true; reply = one_event }
    ∷ record { tag = this_tag; success = false; reply = one_event }
    ∷ []

wait_with_callback-Delivers_example :
    Delivers (wait_with_callback watching completions) (completed_reads completions)
wait_with_callback-Delivers_example = wait_with_callback-Delivers watching completions
