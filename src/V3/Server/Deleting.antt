-- ===== src/V3/Server/Deleting.antt =====
-- The compare-and-delete action against a server.
use provider_agent_proxy.Common.{
  ℕ, ◌≡◌, ◌≢◌, refl, ap, ◌∙◌, Bool, true, false, ◌&&◌, List, [], ◌∷◌, none,
}
use provider_agent_proxy.Common.Int.{ℤ, pos, to_i32}
use provider_agent_proxy.V3.Messages.{
  TxnResponse, RequestOp, request_range, request_delete_range, ok,
}
use provider_agent_proxy.V3.Response.{
  V3Response, new_response, set_error, set_action_of, parse_txn, parse_ops, comparedelete_action,
}
use provider_agent_proxy.V3.Transaction.{get_request}
use provider_agent_proxy.V3.Action.{ActionParameters, AtomicityType, prev_index, prev_value}
use provider_agent_proxy.V3.Action.CompareAndDelete
use provider_agent_proxy.V3.Server.Interface.{EtcdKv, run_ops, all_hold}
use provider_agent_proxy.V3.Server.Replies.{read_back, deleted, run-delete}
use provider_agent_proxy.V3.Server.Actions.{compare_and_delete, Refused, refused, txn_reads}
use provider_agent_proxy.V3.Server.Swapping.{matches_previous}

module _ (e : EtcdKv) where
  delete_holds :
      (p : ActionParameters) (type : AtomicityType) (s : e.Store)
      → all_hold (e.holds s) (CompareAndDelete.request p type).compare
        ≡ (matches_previous p type (e.get s p.key) && true)
  unfolding CompareAndDelete.request
  delete_holds p prev_value s = rw (e.holds_value s p.key p.old_value)
  delete_holds p prev_index s = rw (e.holds_mod s p.key p.old_revision)

  abbrev delete_ops : ActionParameters → List RequestOp
  delete_ops p = request_delete_range (record { key = p.key; range_end = []; prev_kv = true }) ∷ []

  delete_success :
      (p : ActionParameters) (type : AtomicityType)
      → (CompareAndDelete.request p type).success ≡ delete_ops p
  unfolding CompareAndDelete.request
  delete_success p prev_value = refl
  delete_success p prev_index = refl

  delete_failure :
      (p : ActionParameters) (type : AtomicityType)
      → (CompareAndDelete.request p type).failure ≡ request_range (get_request p.key) ∷ []
  unfolding CompareAndDelete.request
  delete_failure p prev_value = refl
  delete_failure p prev_index = refl

  delete_answer :
      (p : ActionParameters) (succeeded : Bool) (reply : TxnResponse)
      → p.with_prefix ≡ false
      → reply.succeeded ≡ succeeded
      → CompareAndDelete.parse_response p ok reply
        ≡ CompareAndDelete.finish
            (set_action_of (parse_txn false reply) comparedelete_action)
            succeeded
  unfolding CompareAndDelete.parse_response
  delete_answer p succeeded reply single done =
      ap
        (λ (b : Bool).
          CompareAndDelete.finish (set_action_of (parse_txn b reply) comparedelete_action)
            reply.succeeded)
        single
      ∙ ap (CompareAndDelete.finish (set_action_of (parse_txn false reply) comparedelete_action))
          done

  delete_finish-true : (r : V3Response) → CompareAndDelete.finish r true ≡ r
  unfolding CompareAndDelete.finish
  delete_finish-true r = refl

  delete_finish-false :
      (r : V3Response) → CompareAndDelete.finish r false ≡ set_error r (pos 101) "Compare failed"
  unfolding CompareAndDelete.finish
  delete_finish-false r = refl

  -- The key is gone, nothing else has changed, and the answer holds what was stored.
  pub data Removed (p : ActionParameters) (s s' : e.Store) (answer : V3Response) : Type 0 where
    removed :
        (index : ℤ)
        → e.get s' p.key ≡ none
        → ((k : List ℕ) → k ≢ p.key → e.get s' k ≡ e.get s k)
        → answer ≡ set_action_of (deleted index (e.get s p.key)) comparedelete_action
        → Removed p s s' answer

  -- With `with_prefix` off, and where the stored value, or the revision of the key (0 for a
  -- missing key), is the one that the parameters expect, a compare-and-delete removes the key
  -- and changes no other; the answer holds the old pair, and once more without its value.
  pub delete_matching :
      (p : ActionParameters) (type : AtomicityType) (s : e.Store)
      → p.with_prefix ≡ false
      → matches_previous p type (e.get s p.key) ≡ true
      → Removed p s (compare_and_delete e p type s).0 (compare_and_delete e p type s).1
  unfolding parse_txn
  delete_matching p type s single same =
      let r = CompareAndDelete.request p type in
      let holds : all_hold (e.holds s) r.compare ≡ true =
        delete_holds p type s ∙ ap (λ (b : Bool). b && true) same in
      let index = to_i32 (e.txn s r).1.revision in
      let store : (e.txn s r).0 ≡ (run_ops e.perform s (delete_ops p)).0 =
        e.txn_store s r ∙ rw (holds, delete_success p type) in
      let resps : (e.txn s r).1.responses ≡ (run_ops e.perform s (delete_ops p)).1 =
        e.txn_responses s r ∙ rw (holds, delete_success p type) in
      removed index (ap (λ (x : e.Store). e.get x p.key) store ∙ e.delete_removes s p.key)
        (λ k other. ap (λ (x : e.Store). e.get x k) store ∙ e.delete_keeps s p.key k other)
        (delete_answer p true (e.txn s r).1 single (e.txn_succeeded s r ∙ holds)
          ∙ delete_finish-true _
          ∙ ap (λ (a : V3Response). set_action_of a comparedelete_action)
              (ap (parse_ops false (record new_response { index = index })) resps
                ∙ run-delete e s p.key index))

  -- With `with_prefix` off, and where the stored value or the revision is another, a
  -- compare-and-delete leaves the store as it was and answers with error 101, also for a
  -- missing key.
  pub delete_differing :
      (p : ActionParameters) (type : AtomicityType) (s : e.Store)
      → p.with_prefix ≡ false
      → matches_previous p type (e.get s p.key) ≡ false
      → Refused e s (compare_and_delete e p type s).0 (compare_and_delete e p type s).1 (λ index.
        set_error
          (set_action_of (read_back index (e.get s p.key)) comparedelete_action)
          (pos 101)
          "Compare failed")
  delete_differing p type s single differs =
      let r = CompareAndDelete.request p type in
      let holds : all_hold (e.holds s) r.compare ≡ false =
        delete_holds p type s ∙ ap (λ (b : Bool). b && true) differs in
      let (same, read) = txn_reads e p s r (delete_failure p type) holds in
      refused (to_i32 (e.txn s r).1.revision) same (
        delete_answer p false (e.txn s r).1 single (e.txn_succeeded s r ∙ holds)
        ∙ delete_finish-false _
        ∙ ap
            (λ (a : V3Response).
              set_error (set_action_of a comparedelete_action) (pos 101) "Compare failed")
            read)
