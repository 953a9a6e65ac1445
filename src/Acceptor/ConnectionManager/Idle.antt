-- ===== src/Acceptor/ConnectionManager/Idle.antt =====
-- The busy and the idle connections of a manager, in the order of its list.
use mathlib.Core.List.{append_assoc}
use provider_agent_proxy.Common.{
  ℕ, Option, arith, ◌≡◌, sym, ap, subst, ◌∙◌, Bool, true, false, List, [], ◌∷◌, ◌++◌, inl, inr,
  Bool-cases, if◌then◌else◌, ◌&&◌, head, Differs, NoDup, NoDup-append_last, All-left, All-right,
  ◌==◌,
}
use provider_agent_proxy.Acceptor.ConnectionManager.{
  ConnectionManager, member, erase, skip_over, or_last, add_connection, remove_connection,
  link_connection, tell_pending, close_later, on_activated, on_deactivated, schedule_timeout,
}
use provider_agent_proxy.Acceptor.ConnectionManager.Lists.{
  member-false→Differs, NoDup-erase, erased-Differs, erase-append, erase-Differs,
  member-left→Differs, skip_over-head, or_last-head,
}

-- The list of the connections is a list of busy ones and a list of idle ones, to whose first
-- connection idleIterator_ points.
pub record IsZoned (m : ConnectionManager) (busy idle : List ℕ) : Type 0 where
  pub conns_are : m.conns ≡ busy ++ idle
  pub idle_at : m.idle_iterator ≡ head idle
  pub distinct : NoDup (busy ++ idle)

-- What changes the list, and what becomes of the two lists.
pub data Change : Type 0 where
  adds : ℕ → Bool → Change
  removes activates deactivates : ℕ → Change

unfoldable pub make_change : Change → ConnectionManager → ConnectionManager
unfolding add_connection remove_connection on_activated on_deactivated
make_change (adds c t) m = add_connection c t m
make_change (removes c) m = remove_connection c m
make_change (activates c) m = on_activated c m
make_change (deactivates c) m = on_deactivated c m

abbrev pub zones : Change → List ℕ → List ℕ → List ℕ × List ℕ
zones (adds c t) busy idle = if member c (busy ++ idle) then (busy, idle) else (c ∷ busy, idle)
zones (removes c) busy idle = (erase c busy, erase c idle)
zones (activates c) busy idle = (c ∷ erase c busy, erase c idle)
zones (deactivates c) busy idle = (erase c busy, idle ++ (c ∷ []))

-- Only a connection of the manager becomes busy, and only a busy one becomes idle.
abbrev pub allowed : Change → List ℕ → List ℕ → Bool
allowed (adds c t) busy idle = true
allowed (removes c) busy idle = true
allowed (activates c) busy idle = member c (busy ++ idle)
allowed (deactivates c) busy idle = member c busy

-- The list and the iterators.
record Places : Type 0 where
  conns : List ℕ
  idle_iterator : Option ℕ
  drain_iterator : Option ℕ

abbrev places : ConnectionManager → Places
places m = record {
  conns = m.conns;
  idle_iterator = m.idle_iterator;
  drain_iterator = m.drain_iterator;
}

-- The parts of addConnection().
module _ (c : ℕ) (m : ConnectionManager) where
  tell_pending-places : places (tell_pending c m) ≡ places m
  tell_pending-places = ground arith

  close_later-places : places (close_later c m) ≡ places m
  close_later-places = ground arith

  timed-places : (t : Bool) → places (if t then schedule_timeout c m.timeout m else m) ≡ places m
  unfolding schedule_timeout
  timed-places t = ground arith

  link_connection-places :
      places (link_connection c m)
      ≡ record (places m) { conns = if member c m.conns then m.conns else c ∷ m.conns }
  link_connection-places = ground arith

add_connection-places :
    (c : ℕ) (t : Bool) (m : ConnectionManager)
    → places (add_connection c t m)
      ≡ record (places m) { conns = if member c m.conns then m.conns else c ∷ m.conns }
unfolding add_connection
add_connection-places c t m =
    let linked = link_connection c m in
    let timed = if t then schedule_timeout c linked.timeout linked else linked in
    close_later-places c (tell_pending c timed)
    ∙ tell_pending-places c timed
    ∙ timed-places c linked t
    ∙ link_connection-places c m

pub remove_connection-lists :
    (c : ℕ) (m : ConnectionManager)
    → member c m.conns ≡ true
    → ((remove_connection c m).conns ≡ erase c m.conns)
      × ((remove_connection c m).idle_iterator ≡ skip_over c m.conns m.idle_iterator)
      × ((remove_connection c m).drain_iterator ≡ skip_over c m.conns m.drain_iterator)
unfolding remove_connection
remove_connection-lists c m h = (ground arith, ground arith, ground arith)

remove_connection-stranger :
    (c : ℕ) (m : ConnectionManager) → member c m.conns ≡ false → remove_connection c m ≡ m
unfolding remove_connection
remove_connection-stranger c m h = simp (h, remove_connection)

module _ (m : ConnectionManager) (busy idle : List ℕ) (z : IsZoned m busy idle) where
  member-zones : (c : ℕ) → member c m.conns ≡ member c (busy ++ idle)
  member-zones c = ap (member c) z.conns_are

  skip-zones : (c : ℕ) → skip_over c m.conns m.idle_iterator ≡ head (erase c idle)
  skip-zones c =
      ap (skip_over c m.conns) z.idle_at
      ∙ ap (λ l. skip_over c l (head idle)) z.conns_are
      ∙ skip_over-head c busy idle z.distinct

  erase-zones : (c : ℕ) → erase c m.conns ≡ erase c busy ++ erase c idle
  erase-zones c = ap (erase c) z.conns_are ∙ erase-append c busy idle z.distinct

  NoDup-less_zones : (c : ℕ) → NoDup (erase c busy ++ erase c idle)
  NoDup-less_zones c =
      subst NoDup (erase-append c busy idle z.distinct) (NoDup-erase c (busy ++ idle) z.distinct)

  Differs-less : (c : ℕ) → Differs c (erase c busy ++ erase c idle)
  Differs-less c =
      subst (Differs c) (erase-append c busy idle z.distinct)
        (erased-Differs c (busy ++ idle) z.distinct)

  adds-IsZoned :
      (c : ℕ) (t : Bool)
      → IsZoned (add_connection c t m) (zones (adds c t) busy idle).0 (zones (adds c t) busy idle).1
  adds-IsZoned c t =
      let added = add_connection-places c t m in
      let conns = ap (λ (x : Places). x.conns) added in
      let idles = ap (λ (x : Places). x.idle_iterator) added in
      elim (Bool-cases (member c (busy ++ idle))) [
        | inl is ↦ rw is (record {
          conns_are = conns ∙ rw (member-zones c, is) z.conns_are;
          idle_at = idles ∙ z.idle_at;
          distinct = z.distinct;
        })
        | inr is ↦ rw is (record {
          conns_are = conns ∙ rw (member-zones c, is) (ap (◌∷◌ c) z.conns_are);
          idle_at = idles ∙ z.idle_at;
          distinct = (member-false→Differs c (busy ++ idle) is, z.distinct);
        })
      ]

  pub removes-IsZoned : (c : ℕ) → IsZoned (remove_connection c m) (erase c busy) (erase c idle)
  removes-IsZoned c = elim (Bool-cases (member c m.conns)) [
    | inl is ↦
        let (conns, idles, _) = remove_connection-lists c m is in
        record {
          conns_are = conns ∙ erase-zones c;
          idle_at = idles ∙ skip-zones c;
          distinct = NoDup-less_zones c;
        }
    | inr is ↦
        let gone = member-false→Differs c (busy ++ idle) (sym (member-zones c) ∙ is) in
        rw
          (
            remove_connection-stranger c m is,
            erase-Differs c busy (All-left (λ x. (x == c) ≡ false) busy idle gone),
            erase-Differs c idle (All-right (λ x. (x == c) ≡ false) busy idle gone),
          )
          z
  ]

  activates-IsZoned : (c : ℕ) → IsZoned (on_activated c m) (c ∷ erase c busy) (erase c idle)
  unfolding on_activated
  activates-IsZoned c = record {
    conns_are = ap (◌∷◌ c) (erase-zones c);
    idle_at = skip-zones c;
    distinct = (Differs-less c, NoDup-less_zones c);
  }

  deactivates-IsZoned :
      (c : ℕ)
      → member c busy ≡ true
      → IsZoned (on_deactivated c m) (erase c busy) (idle ++ (c ∷ []))
  unfolding on_deactivated
  deactivates-IsZoned c is =
      let alone = erase-Differs c idle (member-left→Differs c busy idle z.distinct is) in
      let moved =
        ap (λ l. l ++ (c ∷ [])) (erase-zones c ∙ ap (◌++◌ (erase c busy)) alone)
        ∙ append_assoc (erase c busy) idle (c ∷ []) in
      record {
        conns_are = moved;
        idle_at =
            ap (or_last m.idle_iterator) moved
            ∙ ap (λ it. or_last it (erase c busy ++ (idle ++ (c ∷ [])))) z.idle_at
            ∙ or_last-head (erase c busy) idle c;
        distinct = subst NoDup (append_assoc (erase c busy) idle (c ∷ [])) (
            NoDup-append_last (erase c busy ++ idle) c
              (subst (λ l. NoDup (erase c busy ++ l)) alone (NoDup-less_zones c))
              (subst (λ l. Differs c (erase c busy ++ l)) alone (Differs-less c)));
      }

-- One change.
make_change-IsZoned :
    (e : Change) (m : ConnectionManager) (busy idle : List ℕ)
    → IsZoned m busy idle
    → allowed e busy idle ≡ true
    → IsZoned (make_change e m) (zones e busy idle).0 (zones e busy idle).1
unfolding make_change
make_change-IsZoned (adds c t) m busy idle z ok = adds-IsZoned m busy idle z c t
make_change-IsZoned (removes c) m busy idle z ok = removes-IsZoned m busy idle z c
make_change-IsZoned (activates c) m busy idle z ok = activates-IsZoned m busy idle z c
make_change-IsZoned (deactivates c) m busy idle z ok = deactivates-IsZoned m busy idle z c ok

-- Changes one after the other.
abbrev pub make_changes : List Change → ConnectionManager → ConnectionManager
make_changes [] m = m
make_changes (e ∷ es) m = make_changes es (make_change e m)

abbrev pub zones_after : List Change → List ℕ → List ℕ → List ℕ × List ℕ
zones_after [] busy idle = (busy, idle)
zones_after (e ∷ es) busy idle = zones_after es (zones e busy idle).0 (zones e busy idle).1

abbrev pub all_allowed : List Change → List ℕ → List ℕ → Bool
all_allowed [] busy idle = true
all_allowed (e ∷ es) busy idle =
    allowed e busy idle && all_allowed es (zones e busy idle).0 (zones e busy idle).1

-- From a manager whose list is one of busy and one of idle connections, separated by idleIterator_,
-- and through any changes in which only a connection of the manager becomes busy and only a busy one
-- becomes idle: the list is again one of busy and one of idle connections, separated by
-- idleIterator_. A new connection is busy; one that becomes busy comes to the front of the busy ones;
-- one that becomes idle comes to the end of the idle ones, so that these stand in the order in which
-- they became idle; and one that is removed is in neither.
pub make_changes-IsZoned :
    (es : List Change) (m : ConnectionManager) (busy idle : List ℕ)
    → IsZoned m busy idle
    → all_allowed es busy idle ≡ true
    → IsZoned (make_changes es m) (zones_after es busy idle).0 (zones_after es busy idle).1
make_changes-IsZoned [] m busy idle z ok = z
make_changes-IsZoned (e ∷ es) m busy idle z ok =
    make_changes-IsZoned es (make_change e m) (zones e busy idle).0 (zones e busy idle).1
      (make_change-IsZoned e m busy idle z (ground arith)) (ground arith)
