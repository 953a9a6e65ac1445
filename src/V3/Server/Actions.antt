-- ===== src/V3/Server/Actions.antt =====
-- The transactional actions against a server: what each does to the store, and what it answers.
use provider_agent_proxy.Common.{
  ℕ, ◌≡◌, ◌≢◌, ap, ◌∙◌, Bool, true, false, List, [], ◌∷◌, some, String,
}
use provider_agent_proxy.Common.Int.{ℤ, to_i32}
use provider_agent_proxy.V3.Messages.{Kv, TxnRequest, TxnResponse, request_range, ok}
use provider_agent_proxy.V3.Response.{V3Response, new_response, set_action_of, parse_txn, parse_ops}
use provider_agent_proxy.V3.Transaction.{get_request}
use provider_agent_proxy.V3.Action.{ActionParameters, AtomicityType}
use provider_agent_proxy.V3.Action.Set
use provider_agent_proxy.V3.Action.Update
use provider_agent_proxy.V3.Action.CompareAndSwap
use provider_agent_proxy.V3.Action.CompareAndDelete
use provider_agent_proxy.V3.Server.Interface.{EtcdKv, run_ops, all_hold}
use provider_agent_proxy.V3.Server.Replies.{
  put_and_get, written, read_back, PutAndGet, put_and_got, run-put_and_get, run-get,
}

module _ (e : EtcdKv) where
  -- Each action sends its request, and reads the answer of a call that succeeded.
  abbrev pub set : ActionParameters → Bool → e.Store → e.Store × V3Response
  set p is_create s =
      let (s', reply) = e.txn s (Set.request p is_create) in
      (s', Set.parse_response p is_create ok reply)

  abbrev pub update : ActionParameters → e.Store → e.Store × V3Response
  update p s =
      let (s', reply) = e.txn s (Update.request p) in (s', Update.parse_response p ok reply)

  abbrev pub compare_and_swap : ActionParameters → AtomicityType → e.Store → e.Store × V3Response
  compare_and_swap p type s =
      let (s', reply) = e.txn s (CompareAndSwap.request p type) in
      (s', CompareAndSwap.parse_response p ok reply)

  abbrev pub compare_and_delete : ActionParameters → AtomicityType → e.Store → e.Store × V3Response
  compare_and_delete p type s =
      let (s', reply) = e.txn s (CompareAndDelete.request p type) in
      (s', CompareAndDelete.parse_response p ok reply)

  -- The store holds the value of the parameters now, under their key and with their lease, and
  -- nothing else has changed; the answer holds the new value, the one before, and the action's name.
  pub data Wrote (p : ActionParameters) (name : String) (s s' : e.Store) (answer : V3Response)
      : Type 0 where
    wrote :
        (index : ℤ) (kv : Kv)
        → e.get s' p.key ≡ some kv
        → kv.key ≡ p.key
        → kv.value ≡ p.value
        → kv.lease ≡ p.lease_id
        → ((k : List ℕ) → k ≢ p.key → e.get s' k ≡ e.get s k)
        → answer ≡ set_action_of (written index (e.get s p.key) kv) name
        → Wrote p name s s' answer

  -- The store is as before, and the answer is the given one.
  pub data Refused (s s' : e.Store) (answer : V3Response) (message : ℤ → V3Response) : Type 0 where
    refused : (index : ℤ) → s' ≡ s → answer ≡ message index → Refused s s' answer message

  -- A transaction whose first list puts and gets, where its comparison holds.
  pub txn_writes :
      (p : ActionParameters) (s : e.Store) (r : TxnRequest)
      → r.success ≡ put_and_get p.key p.value p.lease_id
      → all_hold (e.holds s) r.compare ≡ true
      → PutAndGet e p.key p.value p.lease_id s (e.txn s r).0 (e.txn s r).1.responses
  txn_writes p s r ops holds =
      rw (e.txn_store s r, e.txn_responses s r, holds, ops)
        (run-put_and_get e s p.key p.value p.lease_id)

  pub txn_writes_else :
      (p : ActionParameters) (s : e.Store) (r : TxnRequest)
      → r.failure ≡ put_and_get p.key p.value p.lease_id
      → all_hold (e.holds s) r.compare ≡ false
      → PutAndGet e p.key p.value p.lease_id s (e.txn s r).0 (e.txn s r).1.responses
  txn_writes_else p s r ops holds =
      rw (e.txn_store s r, e.txn_responses s r, holds, ops)
        (run-put_and_get e s p.key p.value p.lease_id)

  -- A transaction whose second list gets, where its comparison fails.
  pub txn_reads :
      (p : ActionParameters) (s : e.Store) (r : TxnRequest)
      → r.failure ≡ request_range (get_request p.key) ∷ []
      → all_hold (e.holds s) r.compare ≡ false
      → ((e.txn s r).0 ≡ s)
        × (parse_txn false (e.txn s r).1
            ≡ read_back (to_i32 (e.txn s r).1.revision) (e.get s p.key))
  unfolding parse_txn
  txn_reads p s r ops holds =
      let (same, read) = run-get e s p.key (to_i32 (e.txn s r).1.revision) in
      let resps : (e.txn s r).1.responses
          ≡ (run_ops e.perform s (request_range (get_request p.key) ∷ [])).1 =
        e.txn_responses s r ∙ rw (holds, ops) in
      (
        e.txn_store s r ∙ rw (holds, ops) same,
        ap (parse_ops false (record new_response { index = to_i32 (e.txn s r).1.revision })) resps
            ∙ read,
      )

  -- What the client reads from such a response, whatever it does with it then.
  pub Wrote-of :
      (p : ActionParameters) (name : String) (s s' : e.Store) (reply : TxnResponse)
      (answer : V3Response)
      → PutAndGet e p.key p.value p.lease_id s s' reply.responses
      → answer ≡ set_action_of (parse_txn false reply) name
      → Wrote p name s s' answer
  unfolding parse_txn
  Wrote-of p name s s' reply answer (put_and_got kv found k v l others read) is =
      wrote (to_i32 reply.revision) kv found k v l others
        (is ∙ ap (λ (r : V3Response). set_action_of r name) (read (to_i32 reply.revision)))
