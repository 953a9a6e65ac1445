-- ===== src/Channel/Pipeline/Events.antt =====
-- wangle/channel/HandlerContext-inl.h and Pipeline-inl.h: how events go through the contexts of a
-- pipeline. A handler is a function from an event to what it fires, and does not keep a state; `M`
-- stands for the messages of all types. The futures of writes are not modelled.
use mathlib.Core.Option
use provider_agent_proxy.Common.{
  ℕ, zero, suc, Bool, true, false, List, [], ◌∷◌, ◌++◌, Option, none, some, String, select,
}
use provider_agent_proxy.Channel.Pipeline.{
  HandlerDir, dir_both, dir_in, dir_out, ContextImpl, Pipeline,
}

pub data Inbound (M : Type 0) : Type 0 where
  msg_read : M → Inbound M
  eof_read : Inbound M
  exception_read : ℕ → Inbound M
  becomes_active becomes_inactive : Inbound M

pub data Outbound (M : Type 0) : Type 0 where
  msg_write : M → Outbound M
  exception_write : ℕ → Outbound M
  closing : Outbound M

-- What a handler is called with, and what it fires.
pub data Fire (M : Type 0) : Type 0 where
  fire_in : Inbound M → Fire M
  fire_out : Outbound M → Fire M

-- A call of a handler, and the warning that an event has reached the end of the pipeline.
pub data Step (M : Type 0) : Type 0 where
  called : ℕ → Fire M → Step M
  warned : Fire M → Step M

-- What can be fired at a context of a direction: the interface of its class has no other function.
abbrev pub can_fire : {M : Type 0} → HandlerDir → Fire M → Bool
can_fire dir_both e = true
can_fire dir_in (fire_in i) = true
can_fire dir_in (fire_out o) = false
can_fire dir_out (fire_in i) = false
can_fire dir_out (fire_out o) = true

-- What is logged at a context without a next one; nothing for the two transport events.
abbrev pub end_of : {M : Type 0} → Fire M → List (Step M)
end_of (fire_in (msg_read m)) = warned (fire_in (msg_read m)) ∷ []
end_of (fire_in eof_read) = warned (fire_in eof_read) ∷ []
end_of (fire_in (exception_read x)) = warned (fire_in (exception_read x)) ∷ []
end_of (fire_in becomes_active) = []
end_of (fire_in becomes_inactive) = []
end_of (fire_out o) = warned (fire_out o) ∷ []

abbrev pub end_or :
    {M : Type 0}
    → (ℕ → Fire M → Option (List (Step M)))
    → Fire M
    → Option ℕ
    → Option (List (Step M))
end_or pass e none = some (end_of e)
end_or pass e (some d) = pass d e

-- The functions fireRead, ..., fireClose of a context; `pass` calls the next context.
unfoldable pub fire :
    {M : Type 0}
    → (ℕ → Fire M → Option (List (Step M)))
    → ContextImpl
    → Fire M
    → Option (List (Step M))
fire pass x (fire_in i) = end_or pass (fire_in i) x.next_in
fire pass x (fire_out o) = end_or pass (fire_out o) x.next_out

-- One after the other.
abbrev pub in_turn :
    {M : Type 0} → Option (List (Step M)) → Option (List (Step M)) → Option (List (Step M))
in_turn none t = none
in_turn (some s) none = none
in_turn (some s) (some t) = some (s ++ t)

unfoldable pub fire_all :
    {M : Type 0}
    → (ℕ → Fire M → Option (List (Step M)))
    → ContextImpl
    → List (Fire M)
    → Option (List (Step M))
unfolding fire
fire_all pass x [] = some []
fire_all pass x (e ∷ es) = in_turn (fire pass x e) (fire_all pass x es)

-- The functions read, ..., close of a context, with the fuel first; `none` when it runs out.
unfoldable pub deliver :
    {M : Type 0}
    → (ℕ → Fire M → List (Fire M))
    → ℕ
    → (ℕ → ContextImpl)
    → ℕ
    → Fire M
    → Option (List (Step M))
unfolding fire_all
deliver react zero contexts c e = none
deliver react (suc n) contexts c e =
    Option.map (λ s. called (contexts c).handler e ∷ s)
      (fire_all (deliver react n contexts) (contexts c)
        (select (can_fire (contexts c).type_of.dir) (react (contexts c).handler e)))

-- How a call of the pipeline's own functions ends.
pub data Entered (M : Type 0) : Type 0 where
  returned : Option (List (Step M)) → Entered M
  invalid_argument : String → Entered M

-- Without an inbound handler; the two transport events do nothing.
abbrev pub no_front : {M : Type 0} → Inbound M → Entered M
no_front (msg_read m) = invalid_argument "read(): no inbound handler in Pipeline"
no_front eof_read = invalid_argument "readEOF(): no inbound handler in Pipeline"
no_front (exception_read x) = invalid_argument "readException(): no inbound handler in Pipeline"
no_front becomes_active = returned (some [])
no_front becomes_inactive = returned (some [])

abbrev pub no_back : {M : Type 0} → Outbound M → Entered M
no_back (msg_write m) = invalid_argument "write(): no outbound handler in Pipeline"
no_back (exception_write x) = invalid_argument "writeException(): no outbound handler in Pipeline"
no_back closing = invalid_argument "close(): no outbound handler in Pipeline"

unfoldable pub enter_front :
    {M : Type 0} → (ℕ → Fire M → List (Fire M)) → ℕ → Pipeline → Inbound M → Entered M
unfolding deliver
enter_front react n p i = elim p.front [
  | none ↦ no_front i
  | some c ↦ returned (deliver react n p.contexts c (fire_in i))
]

unfoldable pub enter_back :
    {M : Type 0} → (ℕ → Fire M → List (Fire M)) → ℕ → Pipeline → Outbound M → Entered M
unfolding deliver
enter_back react n p o = elim p.back [
  | none ↦ no_back o
  | some c ↦ returned (deliver react n p.contexts c (fire_out o))
]
