-- ===== src/V3/Response.antt =====
-- wangle/v3: KeyValue, V3Response and the ParseResponse functions of the responses.
use provider_agent_proxy.Common.{
  Bool, List, [], ◌∷◌, ◌++◌, none, some, String, if◌then◌else◌, ltb, length,
}
use provider_agent_proxy.Common.Int.{ℤ, pos, eqb, to_i32}
use provider_agent_proxy.V3.Messages.{
  Kv, RangeResponse, DeleteRangeResponse, ResponseOp, response_range, response_put,
  response_delete_range, other, TxnResponse, LeaseGrantResponse, EventType, put, delete,
  unrecognised, WatchEvent, WatchResponse,
}

-- action_constants.cpp
abbrev pub create_action : String
create_action = "create"

abbrev pub compareswap_action : String
compareswap_action = "compareAndSwap"

abbrev pub update_action : String
update_action = "update"

abbrev pub set_action : String
set_action = "set"

abbrev pub get_action : String
get_action = "get"

abbrev pub delete_action : String
delete_action = "delete"

abbrev pub comparedelete_action : String
comparedelete_action = "compareAndDelete"

-- A message whose fields are not set.
abbrev pub default_kv : Kv
default_kv = record { key = []; value = []; version = pos 0; mod_revision = pos 0; lease = pos 0 }

-- etcdv3::KeyValue; `ttl` is an `int`.
pub record KeyValue : Type 0 where
  pub kvs : Kv
  pub ttl : ℤ

abbrev pub new_key_value : KeyValue
new_key_value = record { kvs = default_kv; ttl = pos 0 }

abbrev pub of_kv : Kv → KeyValue
of_kv kv = record { kvs = kv; ttl = pos 0 }

-- The base class of the responses; `index` is an `int`.
pub record V3Response : Type 0 where
  pub error_code : ℤ
  pub index : ℤ
  pub error_message : String
  pub action : String
  pub value : KeyValue
  pub prev_value : KeyValue
  pub values : List KeyValue
  pub prev_values : List KeyValue

abbrev pub new_response : V3Response
new_response = record {
  error_code = pos 0;
  index = pos 0;
  error_message = "";
  action = "";
  value = new_key_value;
  prev_value = new_key_value;
  values = [];
  prev_values = [];
}

-- `set_error_code` and `set_error_message`, which the callers use together.
abbrev pub set_error : V3Response → ℤ → String → V3Response
set_error r code message = record r { error_code = code; error_message = message }

abbrev pub set_action_of : V3Response → String → V3Response
set_action_of r name = record r { action = name }

unfoldable pub has_values : V3Response → Bool
has_values r = ltb 0 (length r.values)

-- `prev_value.kvs.CopyFrom(…)`: the ttl stays.
abbrev pub copy_prev : V3Response → Kv → V3Response
copy_prev r kv = record r { prev_value = record (r.prev_value) { kvs = kv } }

-- The loop that appends a `KeyValue` for each message to `values`.
unfoldable pub push_all : List KeyValue → List Kv → List KeyValue
push_all values [] = values
push_all values (kv ∷ kvs) = push_all (values ++ (of_kv kv ∷ [])) kvs

-- `values[0]`, where the list is not empty.
abbrev pub first : List KeyValue → KeyValue
first [] = new_key_value
first (v ∷ vs) = v

-- The part of AsyncRangeResponse::ParseResponse behind the header.
unfoldable pub parse_range_kvs : V3Response → List Kv → Bool → V3Response
parse_range_kvs r [] prefix = set_error r (pos 100) "Key not found"
parse_range_kvs r (kv ∷ kvs) prefix =
    let all = push_all r.values (kv ∷ kvs) in
    if prefix then record r { values = all } else record r { value = first all; values = [] }

-- AsyncRangeResponse::ParseResponse, on a new response.
unfoldable pub parse_range : RangeResponse → Bool → V3Response
unfolding push_all parse_range_kvs
parse_range resp prefix =
    parse_range_kvs (record new_response { action = get_action; index = to_i32 resp.revision })
      resp.kvs prefix

-- `value.kvs.clear_value()`
abbrev pub clear_value : KeyValue → KeyValue
clear_value v = record v { kvs = record (v.kvs) { value = [] } }

unfoldable pub parse_delete_kvs : V3Response → List Kv → Bool → V3Response
parse_delete_kvs r [] prefix = set_error r (pos 100) "Key not found"
parse_delete_kvs r (kv ∷ kvs) prefix =
    let all = push_all r.values (kv ∷ kvs) in
    if prefix then record r { action = delete_action; values = all } else record r {
      action = delete_action;
      prev_value = first all;
      value = clear_value (first all);
      values = [];
    }

-- AsyncDeleteRangeResponse::ParseResponse, on a new response.
unfoldable pub parse_delete_range : Bool → DeleteRangeResponse → V3Response
unfolding push_all parse_delete_kvs
parse_delete_range prefix resp =
    parse_delete_kvs (record new_response { index = to_i32 resp.revision }) resp.prev_kvs prefix

-- One round of the loop of AsyncTxnResponse::ParseResponse.
unfoldable pub parse_op : Bool → V3Response → ResponseOp → V3Response
parse_op prefix r (response_range resp) =
    let response = parse_range resp prefix in
    record r {
      error_code = response.error_code;
      error_message = response.error_message;
      values = response.values;
      value = response.value;
    }
parse_op prefix r (response_put none) = r
parse_op prefix r (response_put (some kv)) = copy_prev r kv
parse_op prefix r (response_delete_range resp) =
    let response = parse_delete_range prefix resp in
    record (copy_prev r response.prev_value.kvs) {
      values = response.values;
      value = response.value;
    }
parse_op prefix r other = r

unfoldable pub parse_ops : Bool → V3Response → List ResponseOp → V3Response
parse_ops prefix r [] = r
parse_ops prefix r (op ∷ ops) = parse_ops prefix (parse_op prefix r op) ops

-- AsyncTxnResponse::ParseResponse, on a new response.
unfoldable pub parse_txn : Bool → TxnResponse → V3Response
unfolding parse_op parse_ops parse_range parse_delete_range
parse_txn prefix reply =
    parse_ops prefix (record new_response { index = to_i32 reply.revision }) reply.responses

-- AsyncLeaseGrantResponse::ParseResponse; the lease's `ttl` becomes an `int`.
unfoldable pub parse_lease_grant : LeaseGrantResponse → V3Response
parse_lease_grant resp = record new_response {
  index = to_i32 resp.revision;
  value = record { kvs = record default_kv { lease = resp.id }; ttl = to_i32 resp.ttl };
  error_message = resp.error;
}

-- What the type of an event decides.
unfoldable pub parse_event_type : V3Response → EventType → Kv → V3Response
parse_event_type r put kv = record r {
  action = if eqb kv.version (pos 1) then create_action else set_action;
  value = record (r.value) { kvs = kv };
}
parse_event_type r delete kv = record r {
  action = delete_action;
  value = record (r.value) { kvs = kv };
}
parse_event_type r unrecognised kv = r

-- The loop over the events ends in its first round.
unfoldable pub parse_events : V3Response → List WatchEvent → V3Response
unfolding parse_event_type
parse_events r [] = r
parse_events r (e ∷ es) =
    let r' = parse_event_type r e.type e.kv in
    elim e.prev_kv [ none ↦ r' | some kv ↦ copy_prev r' kv ]

-- AsyncWatchResponse::ParseResponse, on a new response.
unfoldable pub parse_watch : WatchResponse → V3Response
unfolding parse_events
parse_watch reply =
    parse_events (record new_response { index = to_i32 reply.revision }) reply.events
