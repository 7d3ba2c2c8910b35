-- ===== src/Selector/Synced.antt =====
-- client-request/rust/src/selector.rs: `update` keeps the hosts and the ring in step.
use dragonfly_sdk.Base.{
  ◌≡◌, refl, sym, ap, ◌∙◌, subst, ◌⊎◌, inl, inr, true, false, ◌&&◌, ◌||◌, none, some, List, [], ◌∷◌,
  arith, ◌==◌, Bool-cases, Option-cases, length, length-map, Text, text_eq, text_eq_refl,
  text_eq_iff, contains, Distinct, TextMap, lookup, insert, keys, lookup-insert, contains-keys,
  insert-Distinct, Within, Within-symm,
}
use dragonfly_sdk.Selector.{
  SeedPeer, HashRing, SeedPeers, empty_seed_peers, hosts_loop, hosts_of, all_known, refresh_hosts,
  build_ring, replace_hosts, update,
}
use dragonfly_sdk.Selector.Ring.{RingLaws}

-- A map of seed peers by host name.
pub record IsNamed (hosts : TextMap SeedPeer) : Type 0 where
  pub distinct : Distinct (keys hosts)
  pub named : (k : Text) (p : SeedPeer) → lookup k hosts ≡ some p → p.host.name ≡ k

some-injective {ℓ} : {A : Type ℓ} {a b : A} → some a ≡ some b → a ≡ b
some-injective e = cc

insert-IsNamed :
    (hosts : TextMap SeedPeer) (p : SeedPeer) → IsNamed hosts → IsNamed (insert p.host.name p hosts)
insert-IsNamed hosts p v = record {
  distinct = insert-Distinct p.host.name p hosts v.distinct;
  named = λ k q e. named_after k q (Bool-cases (text_eq p.host.name k)) e;
}
  where
    named_after :
        (k : Text) (q : SeedPeer)
        → (text_eq p.host.name k ≡ true) ⊎ (text_eq p.host.name k ≡ false)
        → lookup k (insert p.host.name p hosts) ≡ some q
        → q.host.name ≡ k
    named_after k q (inl same) e =
        let p_is_q : some p ≡ some q = rw (lookup-insert, same) at e in
        ap (λ x. x.host.name) (sym (some-injective p_is_q)) ∙ (text_eq_iff p.host.name k).0 same
    named_after k q (inr other) e = v.named k q (rw (lookup-insert, other) at e)

hosts_loop-IsNamed :
    (hosts : TextMap SeedPeer) (ps : List SeedPeer) → IsNamed hosts → IsNamed (hosts_loop hosts ps)
unfolding hosts_loop
hosts_loop-IsNamed hosts [] v = v
hosts_loop-IsNamed hosts (p ∷ ps) v =
    hosts_loop-IsNamed (insert p.host.name p hosts) ps (insert-IsNamed hosts p v)

pub hosts_of-IsNamed : (ps : List SeedPeer) → IsNamed (hosts_of ps)
unfolding hosts_of lookup
hosts_of-IsNamed ps = hosts_loop-IsNamed [] ps (record { distinct = tt; named = λ k p e. cc })

all_known_at :
    (known : TextMap SeedPeer) (ks : List Text) (k : Text)
    → all_known known ks ≡ true
    → contains k ks ≡ true
    → contains k (keys known) ≡ true
unfolding all_known contains
all_known_at known [] k h m = cc
all_known_at known (j ∷ ks) k h m =
    ground (arith, text_eq_iff j k, all_known_at known ks k, contains-keys k known)

pub Within-all_known :
    (known : TextMap SeedPeer) (ks : List Text) → Within ks (keys known) → all_known known ks ≡ true
unfolding all_known contains
Within-all_known known [] w = refl
Within-all_known known (j ∷ ks) w =
    let later = Within-all_known known ks (λ k m. w k (ground (arith, m))) in
    ground (arith, w j, text_eq_refl j, contains-keys j known, later)

same_names :
    (ks js : List Text) → Within ks js → Within js ks → (k : Text) → contains k ks ≡ contains k js
same_names ks js w v k = ground (arith, w k, v k)

module _ (H : HashRing) (L : RingLaws H) where
  build_ring-walk :
      (r : H.Ring) (ks : List Text) (key n : Text)
      → contains n (L.walk (build_ring H r ks) key) ≡ (contains n (L.walk r key) || contains n ks)
  unfolding build_ring contains
  build_ring-walk r [] key n = ground arith
  build_ring-walk r (k ∷ ks) key n =
      ground (arith, build_ring-walk (H.add r k) ks key n, L.contains-walk_add r key n k)

  -- The hosts are keyed by their names, and the ring has virtual nodes of exactly these.
  pub record IsSynced (s : SeedPeers H) : Type 0 where
    pub hosts_named : IsNamed s.hosts
    pub ring_names : (key n : Text) → contains n (L.walk s.hashring key) ≡ contains n (keys s.hosts)

  pub empty-IsSynced : IsSynced (empty_seed_peers H)
  unfolding contains lookup
  empty-IsSynced = record {
    hosts_named = record { distinct = tt; named = λ k p e. cc };
    ring_names = λ key n. L.contains-walk_new key n;
  }

  pub replace-IsSynced :
      (hosts : TextMap SeedPeer) → IsNamed hosts → IsSynced (replace_hosts H hosts)
  unfolding replace_hosts
  replace-IsSynced hosts v = record {
    hosts_named = v;
    ring_names = λ key n.
        build_ring-walk H.new (keys hosts) key n
        ∙ ap (λ b. b || contains n (keys hosts)) (L.contains-walk_new key n);
  }

  -- The fast path finds the same names, so the ring still fits.
  refreshed_names :
      (s : SeedPeers H) (hosts : TextMap SeedPeer)
      → IsNamed hosts
      → (length s.hosts == length hosts && all_known s.hosts (keys hosts)) ≡ true
      → (k : Text) → contains k (keys s.hosts) ≡ contains k (keys hosts)
  refreshed_names s hosts v h =
      let count : length s.hosts ≡ length hosts = ground arith in
      let held = all_known_at s.hosts (keys hosts) in
      let within : Within (keys hosts) (keys s.hosts) = λ k m. held k (ground arith) m in
      let back = Within-symm (keys hosts) (keys s.hosts) v.distinct within (
        omega (
          arith,
          count,
          length-map (λ (e : Text × SeedPeer). e.0) hosts,
          length-map (λ (e : Text × SeedPeer). e.0) s.hosts,
        )) in
      same_names (keys s.hosts) (keys hosts) back within

  pub refresh-IsSynced :
      (s : SeedPeers H) (hosts : TextMap SeedPeer) (kept : SeedPeers H)
      → IsNamed hosts
      → IsSynced s
      → refresh_hosts H s hosts ≡ some kept
      → IsSynced kept × (kept.hosts ≡ hosts)
  unfolding refresh_hosts
  refresh-IsSynced s hosts kept named v h =
      elim (Bool-cases (length s.hosts == length hosts && all_known s.hosts (keys hosts))) [
        | inl same ↦
            let names = refreshed_names s hosts named same in
            let kept_is : some (record s { hosts = hosts }) ≡ some kept = rw same at h in
            subst (λ k. IsSynced k × (k.hosts ≡ hosts)) (some-injective kept_is)
              (
                record { hosts_named = named; ring_names = λ key n. v.ring_names key n ∙ names n },
                refl,
              )
        | inr other ↦ let no : none ≡ some kept = rw other at h in cc
      ]

  -- Under the documented behaviour of the ring, an update leaves the hosts keyed by their names and
  -- the ring with virtual nodes of exactly these names, also when it reuses the ring; and the hosts
  -- are the given seed peers, whatever was known before.
  pub update-IsSynced :
      (s : SeedPeers H) (ps : List SeedPeer)
      → IsSynced s
      → IsSynced (update H s ps) × ((update H s ps).hosts ≡ hosts_of ps)
  unfolding update
  update-IsSynced s ps v = elim (Option-cases (refresh_hosts H s (hosts_of ps))) [
    | inl differ ↦ rw (differ, update) (replace-IsSynced (hosts_of ps) (hosts_of-IsNamed ps), refl)
    | inr (kept, same) ↦
        rw (same, update) (refresh-IsSynced s (hosts_of ps) kept (hosts_of-IsNamed ps) v same)
  ]
