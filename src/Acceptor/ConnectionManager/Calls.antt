-- ===== src/Acceptor/ConnectionManager/Calls.antt =====
-- The calls that a removal makes.
use mathlib.Core.List.{append_assoc, append-nil}
use provider_agent_proxy.Common.{
  ℕ, ◌≡◌, refl, sym, ap, ◌∙◌, List, [], ◌∷◌, ◌++◌, inl, inr, Bool-cases, if◌then◌else◌,
}
use provider_agent_proxy.Acceptor.ConnectionManager.{
  ConnectionManager, Call, cancel, on_removed, on_empty, empty_call, erase, member,
  remove_connection,
}

removal_calls : ℕ → ConnectionManager → List Call
removal_calls c m =
    if member c m.conns
    then cancel c ∷ (if m.has_callback then on_removed ∷ empty_call (erase c m.conns) else [])
    else []

remove_connection-calls :
    (c : ℕ) (m : ConnectionManager) → (remove_connection c m).calls ≡ m.calls ++ removal_calls c m
unfolding remove_connection removal_calls
remove_connection-calls c m = elim (Bool-cases (member c m.conns)) [
  | inl is ↦ elim (Bool-cases m.has_callback) [
    | inl has ↦
        rw (remove_connection, is, has)
          (append_assoc m.calls (cancel c ∷ []) (on_removed ∷ empty_call (erase c m.conns)))
    | inr has ↦ rw (remove_connection, is, has) refl
  ]
  | inr is ↦ rw (remove_connection, is) (sym (append-nil m.calls))
]

-- What is seen of calls, and is none of a removal's.
module _ (see : List Call → List ℕ)
    (see-append : (es fs : List Call) → see (es ++ fs) ≡ see es ++ see fs)
    (see-cancel : (c : ℕ) → see (cancel c ∷ []) ≡ []) (see-removed : see (on_removed ∷ []) ≡ [])
    (see-empty : see (on_removed ∷ on_empty ∷ []) ≡ []) (see-nil : see [] ≡ []) where
  see-after_removal : (cs : List ℕ) → see (on_removed ∷ empty_call cs) ≡ []
  see-after_removal [] = see-empty
  see-after_removal (c ∷ cs) = see-removed

  see-removal_calls : (c : ℕ) (m : ConnectionManager) → see (removal_calls c m) ≡ []
  unfolding removal_calls
  see-removal_calls c m = elim (Bool-cases (member c m.conns)) [
    | inl is ↦ elim (Bool-cases m.has_callback) [
      | inl has ↦
          rw (removal_calls, is, has)
            (see-append (cancel c ∷ []) (on_removed ∷ empty_call (erase c m.conns))
              ∙ ap (λ l. l ++ see (on_removed ∷ empty_call (erase c m.conns))) (see-cancel c)
              ∙ see-after_removal (erase c m.conns))
      | inr has ↦ rw (removal_calls, is, has) (see-cancel c)
    ]
    | inr is ↦ rw (removal_calls, is) see-nil
  ]

  pub see-remove_connection :
      (c : ℕ) (m : ConnectionManager) → see (remove_connection c m).calls ≡ see m.calls
  see-remove_connection c m =
      ap see (remove_connection-calls c m)
      ∙ see-append m.calls (removal_calls c m)
      ∙ ap (◌++◌ (see m.calls)) (see-removal_calls c m)
      ∙ append-nil (see m.calls)
