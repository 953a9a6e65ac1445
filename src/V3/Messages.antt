-- ===== src/V3/Messages.antt =====
-- The messages of etcd's protocol buffers (proto/rpc.proto and kv.proto, which the build generates
-- code for): the fields that the client sets or reads. Bytes and strings of the protocol are lists of
-- bytes, `int64` is `ℤ`.
use provider_agent_proxy.Common.{ℕ, Bool, List, Option, String}
use provider_agent_proxy.Common.Int.{ℤ}

-- mvccpb::KeyValue.
pub record Kv : Type 0 where
  pub key : List ℕ
  pub value : List ℕ
  pub version : ℤ
  pub mod_revision : ℤ
  pub lease : ℤ

pub data SortTarget : Type 0 where
  by_key by_version by_create by_mod by_value : SortTarget

pub data SortOrder : Type 0 where
  unsorted ascend descend : SortOrder

pub record RangeRequest : Type 0 where
  pub key : List ℕ
  pub range_end : List ℕ
  pub sort_target : SortTarget
  pub sort_order : SortOrder

pub record PutRequest : Type 0 where
  pub key : List ℕ
  pub value : List ℕ
  pub prev_kv : Bool
  pub lease : ℤ

pub record DeleteRangeRequest : Type 0 where
  pub key : List ℕ
  pub range_end : List ℕ
  pub prev_kv : Bool

pub data RequestOp : Type 0 where
  request_range : RangeRequest → RequestOp
  request_put : PutRequest → RequestOp
  request_delete_range : DeleteRangeRequest → RequestOp

pub data CompareResult : Type 0 where
  equal greater less not_equal : CompareResult

pub data CompareTarget : Type 0 where
  target_version target_create target_mod target_value : CompareTarget

-- The `oneof` that holds what the target is compared with.
pub data TargetUnion : Type 0 where
  with_version : ℤ → TargetUnion
  with_mod_revision : ℤ → TargetUnion
  with_value : List ℕ → TargetUnion

pub record Compare : Type 0 where
  pub result : CompareResult
  pub target : CompareTarget
  pub key : List ℕ
  pub target_union : TargetUnion

pub record TxnRequest : Type 0 where
  pub compare : List Compare
  pub success : List RequestOp
  pub failure : List RequestOp

pub record LeaseGrantRequest : Type 0 where
  pub ttl : ℤ

pub record WatchCreateRequest : Type 0 where
  pub key : List ℕ
  pub range_end : List ℕ
  pub start_revision : ℤ
  pub prev_kv : Bool

-- `revision` is that of the response's header.
pub record RangeResponse : Type 0 where
  pub revision : ℤ
  pub kvs : List Kv

pub record DeleteRangeResponse : Type 0 where
  pub revision : ℤ
  pub prev_kvs : List Kv

-- `response_case()`: `other` is a case that the client does not look at.
pub data ResponseOp : Type 0 where
  response_range : RangeResponse → ResponseOp
  response_put : Option Kv → ResponseOp
  response_delete_range : DeleteRangeResponse → ResponseOp
  other : ResponseOp

pub record TxnResponse : Type 0 where
  pub revision : ℤ
  pub succeeded : Bool
  pub responses : List ResponseOp

pub record LeaseGrantResponse : Type 0 where
  pub revision : ℤ
  pub id : ℤ
  pub ttl : ℤ
  pub error : String

pub data EventType : Type 0 where
  put delete unrecognised : EventType

pub record WatchEvent : Type 0 where
  pub type : EventType
  pub kv : Kv
  pub prev_kv : Option Kv

pub record WatchResponse : Type 0 where
  pub revision : ℤ
  pub events : List WatchEvent

-- grpc::Status.
pub data Status : Type 0 where
  ok : Status
  failed : ℤ → String → Status
