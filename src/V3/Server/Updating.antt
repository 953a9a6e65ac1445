-- ===== src/V3/Server/Updating.antt =====
-- Updating a key against a server.
use provider_agent_proxy.Common.{
  ◌≡◌, refl, ap, ◌∙◌, Bool, true, false, ◌&&◌, Option, none, some, if◌then◌else◌,
}
use provider_agent_proxy.Common.Int.{pos}
use provider_agent_proxy.V3.Messages.{Kv, TxnResponse, ok}
use provider_agent_proxy.V3.Response.{
  new_response, set_error, set_action_of, parse_txn, update_action,
}
use provider_agent_proxy.V3.Action.{ActionParameters}
use provider_agent_proxy.V3.Action.Update
use provider_agent_proxy.V3.Server.Interface.{EtcdKv, all_hold, is_some}
use provider_agent_proxy.V3.Server.Replies.{put_and_get}
use provider_agent_proxy.V3.Server.Actions.{update, Wrote, Refused, refused, txn_writes, Wrote-of}

module _ (e : EtcdKv) where
  update_holds :
      (p : ActionParameters) (s : e.Store)
      → all_hold (e.holds s) (Update.request p).compare ≡ (is_some (e.get s p.key) && true)
  unfolding Update.request
  update_holds p s = rw (e.holds_present s p.key)

  update_success :
      (p : ActionParameters) → (Update.request p).success ≡ put_and_get p.key p.value p.lease_id
  unfolding Update.request
  update_success p = refl

  update_answer :
      (p : ActionParameters) (succeeded : Bool) (reply : TxnResponse)
      → p.with_prefix ≡ false
      → reply.succeeded ≡ succeeded
      → Update.parse_response p ok reply ≡ (
          if succeeded
          then set_action_of (parse_txn false reply) update_action
          else set_error new_response (pos 100) "Key not found")
  unfolding Update.parse_response
  update_answer p succeeded reply single done =
      ap
        (λ (b : Bool).
          if reply.succeeded
          then set_action_of (parse_txn b reply) update_action
          else set_error new_response (pos 100) "Key not found")
        single
      ∙ ap
          (λ (b : Bool).
            if b
            then set_action_of (parse_txn false reply) update_action
            else set_error new_response (pos 100) "Key not found")
          done

  -- With `with_prefix` off, updating a key that is in the store overwrites it with the value
  -- and the lease of the parameters and changes no other key; the answer holds the new value
  -- and the old one.
  pub update_present :
      (p : ActionParameters) (s : e.Store) (old : Kv)
      → p.with_prefix ≡ false
      → e.get s p.key ≡ some old
      → Wrote e p update_action s (update e p s).0 (update e p s).1
  update_present p s old single there =
      let r = Update.request p in
      let holds : all_hold (e.holds s) r.compare ≡ true =
        update_holds p s ∙ ap (λ (o : Option Kv). is_some o && true) there in
      Wrote-of e p update_action s (e.txn s r).0 (e.txn s r).1 _
        (txn_writes e p s r (update_success p) holds)
        (update_answer p true (e.txn s r).1 single (e.txn_succeeded s r ∙ holds))

  -- With `with_prefix` off, updating a key that is not in the store leaves the store as it was
  -- and answers with error 100, without an action.
  pub update_absent :
      (p : ActionParameters) (s : e.Store)
      → p.with_prefix ≡ false
      → e.get s p.key ≡ none
      → Refused e s
          (update e p s).0
          (update e p s).1
          (λ _. set_error new_response (pos 100) "Key not found")
  unfolding Update.request
  update_absent p s single absent =
      let r = Update.request p in
      let holds : all_hold (e.holds s) r.compare ≡ false =
        update_holds p s ∙ ap (λ (o : Option Kv). is_some o && true) absent in
      refused (pos 0) (e.txn_store s r ∙ rw holds)
        (update_answer p false (e.txn s r).1 single (e.txn_succeeded s r ∙ holds))
