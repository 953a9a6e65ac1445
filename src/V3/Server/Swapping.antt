-- ===== src/V3/Server/Swapping.antt =====
-- The compare-and-swap action against a server.
use provider_agent_proxy.Common.{
  ◌≡◌, refl, ap, ◌∙◌, Bool, true, false, ◌&&◌, [], ◌∷◌, Option, none, some,
}
use provider_agent_proxy.Common.Int.{ℤ, pos, eqb, to_i32}
use provider_agent_proxy.V3.Messages.{Kv, TxnResponse, request_range, ok}
use provider_agent_proxy.V3.Response.{
  V3Response, set_error, set_action_of, parse_txn, compareswap_action,
}
use provider_agent_proxy.V3.Transaction.{get_request}
use provider_agent_proxy.V3.Action.{ActionParameters, AtomicityType, prev_index, prev_value}
use provider_agent_proxy.V3.Action.CompareAndSwap
use provider_agent_proxy.V3.Server.Interface.{EtcdKv, all_hold, value_is, mod_revision_of}
use provider_agent_proxy.V3.Server.Replies.{put_and_get, read_back}
use provider_agent_proxy.V3.Server.Actions.{
  compare_and_swap, Wrote, Refused, refused, txn_writes, txn_reads, Wrote-of,
}

-- The condition of the two conditional actions, on what is stored under the key.
abbrev pub matches_previous : ActionParameters → AtomicityType → Option Kv → Bool
matches_previous p prev_value found = value_is found p.old_value
matches_previous p prev_index found = eqb (mod_revision_of found) p.old_revision

module _ (e : EtcdKv) where
  swap_holds :
      (p : ActionParameters) (type : AtomicityType) (s : e.Store)
      → all_hold (e.holds s) (CompareAndSwap.request p type).compare
        ≡ (matches_previous p type (e.get s p.key) && true)
  unfolding CompareAndSwap.request
  swap_holds p prev_value s = rw (e.holds_value s p.key p.old_value)
  swap_holds p prev_index s = rw (e.holds_mod s p.key p.old_revision)

  swap_success :
      (p : ActionParameters) (type : AtomicityType)
      → (CompareAndSwap.request p type).success ≡ put_and_get p.key p.value p.lease_id
  unfolding CompareAndSwap.request
  swap_success p prev_value = refl
  swap_success p prev_index = refl

  swap_failure :
      (p : ActionParameters) (type : AtomicityType)
      → (CompareAndSwap.request p type).failure ≡ request_range (get_request p.key) ∷ []
  unfolding CompareAndSwap.request
  swap_failure p prev_value = refl
  swap_failure p prev_index = refl

  swap_answer :
      (p : ActionParameters) (succeeded : Bool) (reply : TxnResponse)
      → p.with_prefix ≡ false
      → reply.succeeded ≡ succeeded
      → CompareAndSwap.parse_response p ok reply
        ≡ CompareAndSwap.finish (set_action_of (parse_txn false reply) compareswap_action) succeeded
  unfolding CompareAndSwap.parse_response
  swap_answer p succeeded reply single done =
      ap
        (λ (b : Bool).
          CompareAndSwap.finish (set_action_of (parse_txn b reply) compareswap_action)
            reply.succeeded)
        single
      ∙ ap (CompareAndSwap.finish (set_action_of (parse_txn false reply) compareswap_action)) done

  swap_finish-true : (r : V3Response) → CompareAndSwap.finish r true ≡ r
  unfolding CompareAndSwap.finish
  swap_finish-true r = refl

  -- A failed comparison: error 100 for a key that is not there, error 101 with the present value for
  -- one that is.
  abbrev pub swap_refusal : Option Kv → ℤ → V3Response
  swap_refusal none index = set_action_of (read_back index none) compareswap_action
  swap_refusal (some kv) index =
      set_error (set_action_of (read_back index (some kv)) compareswap_action) (pos 101)
        "Compare failed"

  swap_finish-false :
      (found : Option Kv) (index : ℤ)
      → CompareAndSwap.finish (set_action_of (read_back index found) compareswap_action) false
        ≡ swap_refusal found index
  unfolding CompareAndSwap.finish
  swap_finish-false none index = refl
  swap_finish-false (some kv) index = refl

  -- With `with_prefix` off, and where the stored value, or the revision of the key (0 for a
  -- missing key), is the one that the parameters expect, a compare-and-swap writes the new
  -- value with its lease and changes no other key; the answer holds the new value and the old
  -- one.
  pub swap_matching :
      (p : ActionParameters) (type : AtomicityType) (s : e.Store)
      → p.with_prefix ≡ false
      → matches_previous p type (e.get s p.key) ≡ true
      → Wrote e p compareswap_action s
          (compare_and_swap e p type s).0
          (compare_and_swap e p type s).1
  swap_matching p type s single same =
      let r = CompareAndSwap.request p type in
      let holds : all_hold (e.holds s) r.compare ≡ true =
        swap_holds p type s ∙ ap (λ (b : Bool). b && true) same in
      Wrote-of e p compareswap_action s (e.txn s r).0 (e.txn s r).1 _
        (txn_writes e p s r (swap_success p type) holds)
        (swap_answer p true (e.txn s r).1 single (e.txn_succeeded s r ∙ holds) ∙ swap_finish-true _)

  -- With `with_prefix` off, and where the stored value or the revision is another, a
  -- compare-and-swap leaves the store as it was, and answers with error 100 for a missing key,
  -- and otherwise with the value that is there and error 101.
  pub swap_differing :
      (p : ActionParameters) (type : AtomicityType) (s : e.Store)
      → p.with_prefix ≡ false
      → matches_previous p type (e.get s p.key) ≡ false
      → Refused e s
          (compare_and_swap e p type s).0
          (compare_and_swap e p type s).1
          (swap_refusal (e.get s p.key))
  swap_differing p type s single differs =
      let r = CompareAndSwap.request p type in
      let holds : all_hold (e.holds s) r.compare ≡ false =
        swap_holds p type s ∙ ap (λ (b : Bool). b && true) differs in
      let (same, read) = txn_reads e p s r (swap_failure p type) holds in
      refused (to_i32 (e.txn s r).1.revision) same (
        swap_answer p false (e.txn s r).1 single (e.txn_succeeded s r ∙ holds)
        ∙ ap (λ (a : V3Response). CompareAndSwap.finish (set_action_of a compareswap_action) false)
            read
        ∙ swap_finish-false (e.get s p.key) (to_i32 (e.txn s r).1.revision))
