-- ===== src/Tests/Peers.antt =====
-- The selection of seed peers, and the ejection of a proxy.
use dragonfly_sdk.Base.{
  ℕ, min, ◌≡◌, refl, inl, inr, true, false, none, some, List, [], ◌∷◌, arith, Bool-cases, length,
  is_empty, Text, text, text_eq, contains, TextMap, lookup, insert, remove,
}
use dragonfly_sdk.Errors.{ok}
use dragonfly_sdk.Selector.{Host, SeedPeer, select, grow_window, healthy_or}
use dragonfly_sdk.Selector.Windows.{replicas_along, fresh}
use dragonfly_sdk.Selector.Replicas.{select_lem}
use dragonfly_sdk.Selector.Choice.{IsChoice, select-IsChoice, select_all_healthy}
use dragonfly_sdk.Selector.Zero.{grow_window_stuck}
use dragonfly_sdk.Selector.Ejections.{on_failure, is_ejected, within_cooldown}
use dragonfly_sdk.Selector.Ejections.Streaks.{failed, streak_from}
use dragonfly_sdk.Selector.Ejections.Races.{
  Recording, Reachable, new, next, fail, see, clear, is_ejected-Reachable,
}
use dragonfly_sdk.Tests.World.{
  plain_ring, plain_laws, plain_peers, plain_peers-IsSynced, host_a, host_b, peer_a, peer_b,
}

select_lem_example :
    select plain_ring plain_peers (text "task") 2 ≡ some (ok (host_b ∷ host_a ∷ []))
unfolding plain_peers plain_laws healthy_or replicas_along fresh lookup contains insert text_eq
select_lem_example = select_lem plain_ring plain_laws plain_peers (text "task") 2 (omega arith)

chosen_both : select plain_ring plain_peers (text "task") 2 ≡ some (ok (host_b ∷ host_a ∷ []))
unfolding plain_peers select insert text_eq contains lookup
chosen_both = refl

select-IsChoice_example :
    IsChoice plain_peers.hosts (min 2 (length plain_peers.hosts)) (host_b ∷ host_a ∷ [])
select-IsChoice_example =
    select-IsChoice plain_ring plain_laws plain_peers plain_peers-IsSynced (text "task") 2
      (host_b ∷ host_a ∷ []) (omega arith) chosen_both

abbrev both : TextMap SeedPeer
both = (text "a", peer_a) ∷ (text "b", peer_b) ∷ []

healthy_of : (p q : SeedPeer) → p.healthy ≡ true → some p ≡ some q → q.healthy ≡ true
healthy_of p q h e = cc

healthy_in_both : (k : Text) (p : SeedPeer) → lookup k both ≡ some p → p.healthy ≡ true
unfolding lookup
healthy_in_both k p h = elim (Bool-cases (text_eq (text "a") k)) [
  | inl e ↦ healthy_of peer_a p refl (rw e at h)
  | inr e ↦ elim (Bool-cases (text_eq (text "b") k)) [
    | inl f ↦ healthy_of peer_b p refl (rw (e, f) at h)
    | inr f ↦ let missing : none ≡ some p = rw (e, f) at h in cc
  ]
]

both_healthy : (k : Text) (p : SeedPeer) → lookup k plain_peers.hosts ≡ some p → p.healthy ≡ true
unfolding plain_peers insert text_eq
both_healthy k p h = healthy_in_both k p h

some_peer : is_empty plain_peers.hosts ≡ false
unfolding plain_peers insert text_eq
some_peer = refl

select_all_healthy_example :
    (hs : List Host) × (select plain_ring plain_peers (text "task") 1 ≡ some (ok hs))
    × (length hs ≡ min 1 (length plain_peers.hosts))
select_all_healthy_example =
    select_all_healthy plain_ring plain_laws plain_peers plain_peers-IsSynced (text "task") 1
      (omega arith) some_peer both_healthy

-- Refusals of one proxy while the call that records an answer of another is under way.
abbrev refused : Recording → ℕ → Recording
refused s now = record s { ejections = on_failure s.ejections (text "p") now }

abbrev looked_for : Recording → Recording
looked_for s = record s { removing = text "q" ∷ s.removing }

abbrev cleared : Recording → Recording
cleared s = record s { ejections = remove (text "q") s.ejections; removing = [] }

abbrev other_failed : Recording
other_failed = record { ejections = on_failure [] (text "q") 0; removing = [] }

abbrev four_refused : Recording
four_refused = refused (refused (refused (looked_for (refused other_failed 1)) 2) 3) 4

four_refused-Reachable :
    Reachable
      (failed (text "q") 0
        ∷ failed (text "p") 1
        ∷ failed (text "p") 2
        ∷ failed (text "p") 3
        ∷ failed (text "p") 4
        ∷ [])
      four_refused
unfolding lookup on_failure insert text_eq
four_refused-Reachable =
    next
      (next
        (next (next (next (next new (fail (text "q") 0)) (fail (text "p") 1)) (see (text "q") refl))
          (fail (text "p") 2))
        (fail (text "p") 3))
      (fail (text "p") 4)

is_ejected-Reachable_example :
    is_ejected (refused (cleared four_refused) 5).ejections (text "p") 10 ≡ true
unfolding streak_from within_cooldown text_eq
is_ejected-Reachable_example =
    is_ejected-Reachable (text "p") 10
      (next (next four_refused-Reachable (clear [] [] (text "q") refl)) (fail (text "p") 5))

grow_window_stuck_example : grow_window plain_ring plain_peers (text "task") 0 100 0 ≡ none
unfolding plain_peers lookup insert text_eq
grow_window_stuck_example =
    grow_window_stuck plain_ring plain_peers (text "task") (text "b") peer_b refl refl (omega arith)
      100
