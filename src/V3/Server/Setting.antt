-- ===== src/V3/Server/Setting.antt =====
-- Setting and creating a key against a server.
use provider_agent_proxy.Common.{
  ◌≡◌, refl, ap, ◌∙◌, Bool, true, false, ◌&&◌, Option, none, some, String,
}
use provider_agent_proxy.Common.Int.{pos, to_i32}
use provider_agent_proxy.V3.Messages.{Kv, TxnResponse, ok}
use provider_agent_proxy.V3.Response.{
  V3Response, set_error, set_action_of, parse_txn, create_action, set_action,
}
use provider_agent_proxy.V3.Action.{ActionParameters}
use provider_agent_proxy.V3.Action.Set
use provider_agent_proxy.V3.Server.Interface.{EtcdKv, all_hold, is_none}
use provider_agent_proxy.V3.Server.Replies.{put_and_get, read_back}
use provider_agent_proxy.V3.Server.Actions.{
  set, Wrote, Refused, refused, txn_writes, txn_writes_else, txn_reads, Wrote-of,
}

module _ (e : EtcdKv) where
  -- The comparison of a set request, on a key that is not there and on one that is.
  set_holds :
      (p : ActionParameters) (is_create : Bool) (s : e.Store)
      → all_hold (e.holds s) (Set.request p is_create).compare ≡ (is_none (e.get s p.key) && true)
  unfolding Set.request
  set_holds p true s = rw (e.holds_absent s p.key)
  set_holds p false s = rw (e.holds_absent s p.key)

  set_success :
      (p : ActionParameters) (is_create : Bool)
      → (Set.request p is_create).success ≡ put_and_get p.key p.value p.lease_id
  unfolding Set.request
  set_success p true = refl
  set_success p false = refl

  -- A set that succeeded reads the response and names the action.
  set_answer :
      (p : ActionParameters) (is_create succeeded : Bool) (reply : TxnResponse)
      → p.with_prefix ≡ false
      → reply.succeeded ≡ succeeded
      → Set.parse_response p is_create ok reply
        ≡ Set.finish
            (set_action_of (parse_txn false reply) (Set.action_of is_create))
            succeeded
            (Set.action_of is_create)
  unfolding Set.parse_response
  set_answer p is_create succeeded reply single done =
      let name = Set.action_of is_create in
      ap (λ (b : Bool). Set.finish (set_action_of (parse_txn b reply) name) reply.succeeded name)
        single
      ∙ ap (λ (b : Bool). Set.finish (set_action_of (parse_txn false reply) name) b name) done

  finish-true : (r : V3Response) (name : String) → Set.finish r true name ≡ r
  unfolding Set.finish
  finish-true r name = refl

  finish-set : (r : V3Response) → Set.finish r false set_action ≡ r
  unfolding Set.finish
  finish-set r = refl

  finish-create :
      (r : V3Response)
      → Set.finish r false create_action ≡ set_error r (pos 105) "Key already exists"
  unfolding Set.finish
  finish-create r = refl

  -- With `with_prefix` off, setting a key that is not in the store, with or without `create`,
  -- stores the value of the parameters under it with their lease and changes no other key; the
  -- answer holds the new value, an empty old one, and the name of the action.
  pub set_absent :
      (p : ActionParameters) (is_create : Bool) (s : e.Store)
      → p.with_prefix ≡ false
      → e.get s p.key ≡ none
      → Wrote e p (Set.action_of is_create) s (set e p is_create s).0 (set e p is_create s).1
  set_absent p is_create s single absent =
      let r = Set.request p is_create in
      let holds : all_hold (e.holds s) r.compare ≡ true =
        set_holds p is_create s ∙ ap (λ (o : Option Kv). is_none o && true) absent in
      Wrote-of e p (Set.action_of is_create) s (e.txn s r).0 (e.txn s r).1 _
        (txn_writes e p s r (set_success p is_create) holds)
        (set_answer p is_create true (e.txn s r).1 single (e.txn_succeeded s r ∙ holds)
          ∙ finish-true _ _)

  -- With `with_prefix` off, setting a key that is in the store, without `create`, overwrites it
  -- with the value and the lease of the parameters and changes no other key; the answer holds
  -- the new value and the old one.
  pub set_present :
      (p : ActionParameters) (s : e.Store) (old : Kv)
      → p.with_prefix ≡ false
      → e.get s p.key ≡ some old
      → Wrote e p set_action s (set e p false s).0 (set e p false s).1
  unfolding Set.request
  set_present p s old single there =
      let r = Set.request p false in
      let holds : all_hold (e.holds s) r.compare ≡ false =
        set_holds p false s ∙ ap (λ (o : Option Kv). is_none o && true) there in
      Wrote-of e p set_action s (e.txn s r).0 (e.txn s r).1 _ (txn_writes_else e p s r refl holds)
        (set_answer p false false (e.txn s r).1 single (e.txn_succeeded s r ∙ holds) ∙ finish-set _)

  -- With `with_prefix` off, setting a key that is in the store with `create` leaves the store
  -- as it was, and answers with the value that is there and error 105.
  pub create_present :
      (p : ActionParameters) (s : e.Store) (old : Kv)
      → p.with_prefix ≡ false
      → e.get s p.key ≡ some old
      → Refused e s (set e p true s).0 (set e p true s).1 (λ index.
        set_error
          (set_action_of (read_back index (some old)) create_action)
          (pos 105)
          "Key already exists")
  unfolding Set.request
  create_present p s old single there =
      let r = Set.request p true in
      let holds : all_hold (e.holds s) r.compare ≡ false =
        set_holds p true s ∙ ap (λ (o : Option Kv). is_none o && true) there in
      let (same, read) = txn_reads e p s r refl holds in
      refused (to_i32 (e.txn s r).1.revision) same (
        set_answer p true false (e.txn s r).1 single (e.txn_succeeded s r ∙ holds)
        ∙ finish-create _
        ∙ ap
            (λ (a : V3Response).
              set_error (set_action_of a create_action) (pos 105) "Key already exists")
            (read ∙ ap (read_back (to_i32 (e.txn s r).1.revision)) there))
