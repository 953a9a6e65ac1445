-- ===== src/Acceptor/ConnectionManager/Visits.antt =====
-- What the visit of a connection does in a drain.
use mathlib.Core.List.{append_assoc}
use provider_agent_proxy.Common.{
  ℕ, zero, suc, arith, ◌≡◌, refl, sym, ap, ◌∙◌, Bool, true, false, not, ◌||◌, List, [], ◌∷◌, ◌++◌,
  Option, none, some, inl, inr, Bool-cases, if◌then◌else◌, NoDup, NoDup-before,
}
use provider_agent_proxy.Acceptor.ConnectionManager.{
  ConnectionManager, ShutdownState, close_when_idle, Call, fire_notify, fire_drop, schedule, cancel,
  fire_close, on_added, on_removed, on_empty, member, erase, next_of, remove_connection,
}
use provider_agent_proxy.Acceptor.ConnectionManager.Draining.{
  close_idle, told_close, visit, drain_loop,
}
use provider_agent_proxy.Acceptor.ConnectionManager.Lists.{
  erase-append, erase-Differs, member-append,
}
use provider_agent_proxy.Acceptor.ConnectionManager.Idle.{remove_connection-lists}
use provider_agent_proxy.Acceptor.ConnectionManager.Calls.{see-remove_connection}

-- The connections that calls tell to close when they are idle.
abbrev pub told : List Call → List ℕ
told [] = []
told (fire_notify c ∷ es) = told es
told (fire_close c ∷ es) = c ∷ told es
told (fire_drop c ∷ es) = told es
told (schedule c ∷ es) = told es
told (cancel c ∷ es) = told es
told (on_added ∷ es) = told es
told (on_removed ∷ es) = told es
told (on_empty ∷ es) = told es

pub told-append : (es fs : List Call) → told (es ++ fs) ≡ told es ++ told fs
told-append [] fs = refl
told-append (fire_notify c ∷ es) fs = told-append es fs
told-append (fire_close c ∷ es) fs = ap (◌∷◌ c) (told-append es fs)
told-append (fire_drop c ∷ es) fs = told-append es fs
told-append (schedule c ∷ es) fs = told-append es fs
told-append (cancel c ∷ es) fs = told-append es fs
told-append (on_added ∷ es) fs = told-append es fs
told-append (on_removed ∷ es) fs = told-append es fs
told-append (on_empty ∷ es) fs = told-append es fs

-- What neither a removal nor a visit concerns.
pub record Settings : Type 0 where
  pub shutdown_state : ShutdownState
  pub all : Bool
  pub grace_scheduled : Bool
  pub loop_scheduled : Bool
  pub notify_pending_shutdown : Bool

abbrev pub settings : ConnectionManager → Settings
settings m = record {
  shutdown_state = m.shutdown_state;
  all = m.all;
  grace_scheduled = m.grace_scheduled;
  loop_scheduled = m.loop_scheduled;
  notify_pending_shutdown = m.notify_pending_shutdown;
}

pub remove_connection-settings :
    (c : ℕ) (m : ConnectionManager) → settings (remove_connection c m) ≡ settings m
unfolding remove_connection
remove_connection-settings c m = ground arith

pub visit-settings :
    (closes : ℕ → Bool) (c : ℕ) (m : ConnectionManager) → settings (visit closes c m) ≡ settings m
unfolding visit close_idle remove_connection
visit-settings closes c m = ground arith

pub drain_loop-settings :
    (closes : ℕ → Bool) (n : ℕ) (it : Option ℕ) (m : ConnectionManager)
    → settings (drain_loop closes n it m).0 ≡ settings m
unfolding drain_loop
drain_loop-settings closes zero none m = refl
drain_loop-settings closes (suc n) none m = refl
drain_loop-settings closes zero (some c) m = refl
drain_loop-settings closes (suc n) (some c) m =
    drain_loop-settings closes n (next_of c m.conns) (visit closes c m) ∙ visit-settings closes c m

-- A manager that tells by force.
abbrev pub Forced : ConnectionManager → Type 0
Forced m = (m.shutdown_state ≡ close_when_idle) × (m.notify_pending_shutdown ≡ false)

module _ (closes : ℕ → Bool) (c : ℕ) (m : ConnectionManager) (f : Forced m) where
  visit-leaves : closes c ≡ true → visit closes c m ≡ remove_connection c (told_close c m)
  unfolding visit close_idle
  visit-leaves is = simp (f.0, f.1, is, visit, close_idle)

  visit-stays : closes c ≡ false → visit closes c m ≡ told_close c m
  unfolding visit close_idle
  visit-stays is = simp (f.0, f.1, is, visit, close_idle)

  visit-told : told (visit closes c m).calls ≡ told m.calls ++ (c ∷ [])
  visit-told = elim (Bool-cases (closes c)) [
    | inl is ↦
        ap (λ (x : ConnectionManager). told x.calls) (visit-leaves is)
        ∙ see-remove_connection told told-append (λ d. refl) refl refl refl c (told_close c m)
        ∙ told-append m.calls (fire_close c ∷ [])
    | inr is ↦
        ap (λ (x : ConnectionManager). told x.calls) (visit-stays is)
        ∙ told-append m.calls (fire_close c ∷ [])
  ]

-- The connections before those that are still to visit, after the visit of the first of these.
abbrev pub passed : (ℕ → Bool) → ℕ → List ℕ → List ℕ
passed closes c done = if not (closes c) then done ++ (c ∷ []) else done

-- What a visit does, in a list of connections that are passed, `c`, and those that are still to visit.
module _ (closes : ℕ → Bool) (c : ℕ) (m : ConnectionManager) (done todo : List ℕ) (f : Forced m)
    (is : m.conns ≡ done ++ (c ∷ todo)) (h : NoDup (done ++ (c ∷ todo))) where
  removed-conns : (remove_connection c (told_close c m)).conns ≡ done ++ todo
  removed-conns =
      (remove_connection-lists c (told_close c m) at_c).0
      ∙ ap (erase c) is
      ∙ erase-append c done (c ∷ todo) h
      ∙ ap (λ l. l ++ erase c (c ∷ todo)) (erase-Differs c done (NoDup-before done todo c h))
      ∙ ap (◌++◌ done) (erase-first todo)
    where
      here : (b : Bool) → b || member c (c ∷ todo) ≡ true
      here b = ground arith

      at_c : member c m.conns ≡ true
      at_c = ap (member c) is ∙ member-append c done (c ∷ todo) ∙ here (member c done)

      erase-first : (cs : List ℕ) → erase c (c ∷ cs) ≡ cs
      erase-first cs = ground arith

  pub record Visited (m' : ConnectionManager) : Type 0 where
    pub tells : told m'.calls ≡ told m.calls ++ (c ∷ [])
    pub lists : m'.conns ≡ passed closes c done ++ todo

  pub visit-Visited : Visited (visit closes c m)
  visit-Visited = record {
    tells = visit-told closes c m f;
    lists = elim (Bool-cases (closes c)) [
      | inl leaves ↦
          ap (λ (x : ConnectionManager). x.conns) (visit-leaves closes c m f leaves)
          ∙ removed-conns
          ∙ rw leaves refl
      | inr keeps ↦
          ap (λ (x : ConnectionManager). x.conns) (visit-stays closes c m f keeps)
          ∙ is
          ∙ sym (append_assoc done (c ∷ []) todo)
          ∙ rw keeps refl
    ];
  }
