-- ===== src/Selector/Given.antt =====
-- client-request/rust/src/selector.rs: the hosts of an update are among the seed peers it is given.
use dragonfly_sdk.Base.{
  ◌≡◌, subst, inl, inr, some, List, [], ◌∷◌, Bool-cases, All, Text, text_eq, TextMap, lookup,
  insert, lookup-insert,
}
use dragonfly_sdk.Selector.{SeedPeer, hosts_of, hosts_loop}

-- The later of two seed peers of one name stays, but each that stays was given.
hosts_loop-All :
    (P : SeedPeer → Type 0) (hosts : TextMap SeedPeer) (ps : List SeedPeer)
    → ((k : Text) (p : SeedPeer) → lookup k hosts ≡ some p → P p)
    → All P ps
    → (k : Text) (p : SeedPeer) → lookup k (hosts_loop hosts ps) ≡ some p
    → P p
unfolding hosts_loop
hosts_loop-All P hosts [] v all k p h = v k p h
hosts_loop-All P hosts (q ∷ qs) v all k p h =
    hosts_loop-All P (insert q.host.name q hosts) qs kept all.1 k p h
  where
    kept : (j : Text) (r : SeedPeer) → lookup j (insert q.host.name q hosts) ≡ some r → P r
    kept j r g = elim (Bool-cases (text_eq q.host.name j)) [
      | inl same ↦
          let e : some q ≡ some r = rw (lookup-insert, same) at g in
          let f : q ≡ r = cc in subst P f all.0
      | inr other ↦ v j r (rw (lookup-insert, other) at g)
    ]

pub hosts_of-All :
    (P : SeedPeer → Type 0) (ps : List SeedPeer)
    → All P ps
    → (k : Text) (p : SeedPeer) → lookup k (hosts_of ps) ≡ some p
    → P p
unfolding hosts_of lookup
hosts_of-All P ps all = hosts_loop-All P [] ps (λ k p h. cc) all
