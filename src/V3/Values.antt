-- ===== src/V3/Values.antt =====
-- wangle/v3: what the client hands to its user from the answers of the get and the delete action.
use mathlib.Core.List.{append_assoc, append-nil}
use provider_agent_proxy.Common.{
  ◌≡◌, refl, ap, sym, ◌∙◌, Bool, true, false, List, [], ◌∷◌, ◌++◌, map,
}
use provider_agent_proxy.Common.Int.{ℤ, pos, to_i32}
use provider_agent_proxy.V3.Messages.{Kv, RangeResponse, DeleteRangeResponse, Status}
use provider_agent_proxy.V3.Response.{
  KeyValue, V3Response, new_response, of_kv, clear_value, set_error, get_action, delete_action,
  push_all, parse_range, parse_delete_range,
}
use provider_agent_proxy.V3.Action.{ActionParameters, parse_status}
use provider_agent_proxy.V3.Action.Get
use provider_agent_proxy.V3.Action.Delete

push_all-map :
    (values : List KeyValue) (kvs : List Kv) → push_all values kvs ≡ values ++ map of_kv kvs
unfolding push_all
push_all-map values [] = sym (append-nil values)
push_all-map values (kv ∷ kvs) =
    push_all-map (values ++ (of_kv kv ∷ [])) kvs
    ∙ append_assoc values (of_kv kv ∷ []) (map of_kv kvs)

-- The answer to a get: an error if nothing was found, all pairs in the server's order for a prefix,
-- and the first pair alone otherwise.
abbrev pub get_answer : Bool → ℤ → List Kv → V3Response
get_answer prefix revision [] =
    set_error (record new_response { action = get_action; index = to_i32 revision }) (pos 100)
      "Key not found"
get_answer true revision (kv ∷ kvs) = record new_response {
  action = get_action;
  index = to_i32 revision;
  values = map of_kv (kv ∷ kvs);
}
get_answer false revision (kv ∷ kvs) = record new_response {
  action = get_action;
  index = to_i32 revision;
  value = of_kv kv;
}

-- The answer to a delete: an error without an action if nothing was deleted, all the deleted pairs
-- for a prefix, and otherwise the first pair, and once more without its contents.
abbrev pub delete_answer : Bool → ℤ → List Kv → V3Response
delete_answer prefix revision [] =
    set_error (record new_response { index = to_i32 revision }) (pos 100) "Key not found"
delete_answer true revision (kv ∷ kvs) = record new_response {
  action = delete_action;
  index = to_i32 revision;
  values = map of_kv (kv ∷ kvs);
}
delete_answer false revision (kv ∷ kvs) = record new_response {
  action = delete_action;
  index = to_i32 revision;
  value = clear_value (of_kv kv);
  prev_value = of_kv kv;
}

parse_range-get_answer :
    (prefix : Bool) (revision : ℤ) (kvs : List Kv)
    → parse_range (record { revision = revision; kvs = kvs }) prefix
      ≡ get_answer prefix revision kvs
unfolding parse_range
parse_range-get_answer prefix revision [] = refl
parse_range-get_answer true revision (kv ∷ kvs) = rw (push_all-map (of_kv kv ∷ []) kvs)
parse_range-get_answer false revision (kv ∷ kvs) = rw (push_all-map (of_kv kv ∷ []) kvs)

parse_delete-delete_answer :
    (prefix : Bool) (revision : ℤ) (kvs : List Kv)
    → parse_delete_range prefix (record { revision = revision; prev_kvs = kvs })
      ≡ delete_answer prefix revision kvs
unfolding parse_delete_range
parse_delete-delete_answer prefix revision [] = refl
parse_delete-delete_answer true revision (kv ∷ kvs) = rw (push_all-map (of_kv kv ∷ []) kvs)
parse_delete-delete_answer false revision (kv ∷ kvs) = rw (push_all-map (of_kv kv ∷ []) kvs)

-- A get answers with `get_answer` of what the server found, and with the status of a call that
-- failed.
pub get_answers :
    (p : ActionParameters) (status : Status) (reply : RangeResponse)
    → Get.parse_response p status reply
      ≡ parse_status status (get_answer p.with_prefix reply.revision reply.kvs)
unfolding Get.parse_response
get_answers p status reply =
    ap (parse_status status) (parse_range-get_answer p.with_prefix reply.revision reply.kvs)

-- A delete answers with `delete_answer` of what the server deleted, and with the status of a call
-- that failed.
pub delete_answers :
    (p : ActionParameters) (status : Status) (reply : DeleteRangeResponse)
    → Delete.parse_response p status reply
      ≡ parse_status status (delete_answer p.with_prefix reply.revision reply.prev_kvs)
unfolding Delete.parse_response
delete_answers p status reply =
    ap (parse_status status)
      (parse_delete-delete_answer p.with_prefix reply.revision reply.prev_kvs)
