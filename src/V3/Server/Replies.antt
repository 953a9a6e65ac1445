-- ===== src/V3/Server/Replies.antt =====
-- What the lists of operations that the actions send do to a server, and what the client reads out of
-- the responses.
use provider_agent_proxy.Common.{ℕ, ◌≡◌, ◌≢◌, refl, true, false, List, [], ◌∷◌, Option, none, some}
use provider_agent_proxy.Common.Int.{ℤ, pos}
use provider_agent_proxy.V3.Messages.{
  Kv, RequestOp, request_range, request_put, request_delete_range, ResponseOp, response_range,
  response_put, response_delete_range,
}
use provider_agent_proxy.V3.Response.{
  V3Response, new_response, default_kv, of_kv, clear_value, set_error, parse_ops, parse_op,
  push_all, parse_range, parse_delete_range,
}
use provider_agent_proxy.V3.Transaction.{get_request, put_request}
use provider_agent_proxy.V3.Server.Interface.{EtcdKv, Stored, stored, to_list, run_ops}

abbrev pub kv_or_default : Option Kv → Kv
kv_or_default none = default_kv
kv_or_default (some kv) = kv

-- A put and a get of the same key.
abbrev pub put_and_get : List ℕ → List ℕ → ℤ → List RequestOp
put_and_get key value lease =
    request_put (put_request key value lease) ∷ request_range (get_request key) ∷ []

-- The response to them: the new value, and the value before.
abbrev pub written : ℤ → Option Kv → Kv → V3Response
written index prev kv = record new_response {
  index = index;
  value = of_kv kv;
  prev_value = of_kv (kv_or_default prev);
}

-- The response to a get: the value, or an error.
abbrev pub read_back : ℤ → Option Kv → V3Response
read_back index none = set_error (record new_response { index = index }) (pos 100) "Key not found"
read_back index (some kv) = record new_response { index = index; value = of_kv kv }

-- The response to a deletion: the value before, and the same without its contents.
abbrev pub deleted : ℤ → Option Kv → V3Response
deleted index none = record new_response { index = index }
deleted index (some kv) = record new_response {
  index = index;
  value = clear_value (of_kv kv);
  prev_value = of_kv kv;
}

parse_put_and_get :
    (index revision : ℤ) (prev : Option Kv) (kv : Kv)
    → parse_ops false
        (record new_response { index = index })
        (response_put prev ∷ response_range (record { revision = revision; kvs = kv ∷ [] }) ∷ [])
      ≡ written index prev kv
unfolding parse_ops parse_op parse_range push_all
parse_put_and_get index revision none kv = refl
parse_put_and_get index revision (some old) kv = refl

parse_get :
    (index revision : ℤ) (found : Option Kv)
    → parse_ops false
        (record new_response { index = index })
        (response_range (record { revision = revision; kvs = to_list found }) ∷ [])
      ≡ read_back index found
unfolding parse_ops parse_op parse_range push_all
parse_get index revision none = refl
parse_get index revision (some kv) = refl

parse_delete :
    (index revision : ℤ) (found : Option Kv)
    → parse_ops false
        (record new_response { index = index })
        (response_delete_range (record { revision = revision; prev_kvs = to_list found }) ∷ [])
      ≡ deleted index found
unfolding parse_ops parse_op parse_delete_range push_all
parse_delete index revision none = refl
parse_delete index revision (some kv) = refl

module _ (e : EtcdKv) where
  -- A put and a get store the value, and the client reads the new and the old one.
  pub data PutAndGet (key value : List ℕ) (lease : ℤ) (s s' : e.Store) (resps : List ResponseOp)
      : Type 0 where
    put_and_got :
        (kv : Kv)
        → e.get s' key ≡ some kv
        → kv.key ≡ key
        → kv.value ≡ value
        → kv.lease ≡ lease
        → ((k : List ℕ) → k ≢ key → e.get s' k ≡ e.get s k)
        → ((index : ℤ)
            → parse_ops false (record new_response { index = index }) resps
              ≡ written index (e.get s key) kv)
        → PutAndGet key value lease s s' resps

  pub run-put_and_get :
      (s : e.Store) (key value : List ℕ) (lease : ℤ)
      → PutAndGet key value lease s
          (run_ops e.perform s (put_and_get key value lease)).0
          (run_ops e.perform s (put_and_get key value lease)).1
  run-put_and_get s key value lease = go (e.put_stores s key value lease)
    where
      s₁ : e.Store
      s₁ = (e.perform s (request_put (put_request key value lease))).0

      go :
          Stored e.get key value lease s s₁
          → PutAndGet key value lease s
              (run_ops e.perform s (put_and_get key value lease)).0
              (run_ops e.perform s (put_and_get key value lease)).1
      go (stored kv found k v l others) =
          let (revision, reply) = e.range_replies s₁ key in
          rw (e.range_keeps s₁ key, e.put_replies s key value lease, reply, found)
            (put_and_got kv found k v l others
              (λ index. parse_put_and_get index revision (e.get s key) kv))

  pub run-get :
      (s : e.Store) (key : List ℕ) (index : ℤ)
      → ((run_ops e.perform s (request_range (get_request key) ∷ [])).0 ≡ s)
        × (parse_ops false
              (record new_response { index = index })
              (run_ops e.perform s (request_range (get_request key) ∷ [])).1
            ≡ read_back index (e.get s key))
  run-get s key index =
      let (revision, reply) = e.range_replies s key in
      (e.range_keeps s key, rw reply (parse_get index revision (e.get s key)))

  pub run-delete :
      (s : e.Store) (key : List ℕ) (index : ℤ)
      → parse_ops false
          (record new_response { index = index })
          (run_ops e.perform s
            (request_delete_range (record { key = key; range_end = []; prev_kv = true }) ∷ [])).1
        ≡ deleted index (e.get s key)
  run-delete s key index =
      let (revision, reply) = e.delete_replies s key in
      rw reply (parse_delete index revision (e.get s key))
