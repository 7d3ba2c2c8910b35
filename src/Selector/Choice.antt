-- ===== src/Selector/Choice.antt =====
-- client-request/rust/src/selector.rs: which hosts `select` and `select_all` give.
use dragonfly_sdk.Base.{
  ℕ, ◌≤◌, ◌<◌, min, String, ◌≡◌, refl, sym, ap, ◌∙◌, Bool, true, false, some, List, [], ◌∷◌, map,
  arith, if◌then◌else◌, length, filter, is_empty, length-filter, length-take, All, All-take,
  filter-All, length-map, Text, text, contains, Distinct, TextMap, lookup, keys, contains-keys,
  Within, length-Within,
}
use dragonfly_sdk.Errors.{ok, err, host_not_found}
use dragonfly_sdk.Selector.{Host, SeedPeer, HashRing, SeedPeers, healthy_hosts, healthy_or, select}
use dragonfly_sdk.Selector.Ring.{RingLaws}
use dragonfly_sdk.Selector.Windows.{fresh, present, replicas_along}
use dragonfly_sdk.Selector.Replicas.{select_lem}
use dragonfly_sdk.Selector.Synced.{IsNamed, IsSynced}
use dragonfly_sdk.Selector.Names.{
  names, contains-fresh, fresh-Distinct, contains-names-present, present-Distinct, IsKnown,
  present-IsKnown, take-Distinct, filter-Distinct,
}

abbrev host_names : List Host → List Text
host_names hs = map (λ h. h.name) hs

-- A host that is served stands in the map under its name, healthy.
abbrev pub IsServing : TextMap SeedPeer → Host → Type 0
IsServing hosts h = lookup h.name hosts ≡ some (record { host = h; healthy = true })

IsServing-hosts :
    (hosts : TextMap SeedPeer) (ps : List SeedPeer)
    → All (λ p. (lookup p.host.name hosts ≡ some p) × (p.healthy ≡ true)) ps
    → All (IsServing hosts) (map (λ p. p.host) ps)
IsServing-hosts hosts [] h = tt
IsServing-hosts hosts (p ∷ ps) ((known, healthy), h) =
    (known ∙ ap (λ b. some (record p { healthy = b })) healthy, IsServing-hosts hosts ps h)

names-map : (ps : List SeedPeer) → host_names (map (λ p. p.host) ps) ≡ names ps
names-map [] = refl
names-map (p ∷ ps) = ap (◌∷◌ p.host.name) (names-map ps)

healthy_or-ok :
    (what : String) (ps : List SeedPeer) (hs : List Host)
    → healthy_or what ps ≡ ok hs
    → (hs ≡ healthy_hosts ps) × (0 < length hs)
unfolding healthy_or
healthy_or-ok what ps hs e = go (healthy_hosts ps) refl e
  where
    go :
        (found : List Host)
        → healthy_hosts ps ≡ found
        → (if is_empty found then err (host_not_found (text what)) else ok found) ≡ ok hs
        → (hs ≡ healthy_hosts ps) × (0 < length hs)
    go [] f e = cc
    go (h ∷ found) f e = ground arith

healthy_or-some :
    (what : String) (ps : List SeedPeer)
    → 0 < length (healthy_hosts ps)
    → healthy_or what ps ≡ ok (healthy_hosts ps)
unfolding healthy_or
healthy_or-some what ps h = rw (occupied (healthy_hosts ps) h)
  where
    occupied : (hs : List Host) → 0 < length hs → is_empty hs ≡ false
    occupied [] k = absurd (omega arith)
    occupied (x ∷ hs) k = refl

-- What the caller of a selection may rely on.
pub record IsChoice (hosts : TextMap SeedPeer) (most : ℕ) (hs : List Host) : Type 0 where
  pub serving : All (IsServing hosts) hs
  pub distinct : Distinct (host_names hs)
  pub some_host : 0 < length hs
  pub bounded : length hs ≤ most

IsChoice-of :
    (hosts : TextMap SeedPeer) (v : IsNamed hosts) (most : ℕ) (what : String) (ps : List SeedPeer)
    (hs : List Host)
    → Distinct (names ps)
    → All (IsKnown hosts v) ps
    → length ps ≤ most
    → healthy_or what ps ≡ ok hs
    → IsChoice hosts most hs
IsChoice-of hosts v most what ps hs d known le e =
    let (same, some_host) = healthy_or-ok what ps hs e in
    let healthy = filter (λ (p : SeedPeer). p.healthy) ps in
    record {
      serving =
          rw same (
            IsServing-hosts hosts healthy (filter-All (IsKnown hosts v) (λ p. p.healthy) ps known));
      distinct = rw (same, names-map healthy) (filter-Distinct (λ p. p.healthy) ps d);
      some_host = some_host;
      bounded = omega (
        arith,
        ap length same,
        length-map (λ (p : SeedPeer). p.host) healthy,
        length-filter (λ p. p.healthy) ps,
      );
    }

module _ (hosts : TextMap SeedPeer) (v : IsNamed hosts) (expected : ℕ) (walk : List Text) where
  replicas-Distinct : Distinct (names (replicas_along hosts expected walk))
  unfolding replicas_along
  replicas-Distinct =
      take-Distinct expected (present hosts (fresh [] walk))
        (present-Distinct hosts v (fresh [] walk) (fresh-Distinct [] walk))

  replicas-IsKnown : All (IsKnown hosts v) (replicas_along hosts expected walk)
  unfolding replicas_along
  replicas-IsKnown =
      All-take (IsKnown hosts v) expected (present hosts (fresh [] walk))
        (present-IsKnown hosts v (fresh [] walk))

  -- With a virtual node for every host, the walk meets as many seed peers as there are hosts.
  replicas_count :
      expected ≤ length hosts
      → Within (keys hosts) walk
      → length (replicas_along hosts expected walk) ≡ expected
  unfolding replicas_along contains
  replicas_count le covered =
      let found = present hosts (fresh [] walk) in
      let met : Within (keys hosts) (names found) = λ k m.
        contains-names-present hosts v k (fresh [] walk)
        ∙ ground (arith, contains-fresh k [] walk, covered k m, contains-keys k hosts, m) in
      omega (
        arith,
        length-Within (keys hosts) (names found) v.distinct met,
        length-map (λ (e : Text × SeedPeer). e.0) hosts,
        length-map (λ (p : SeedPeer). p.host.name) found,
        length-take expected found,
      )

module _ (H : HashRing) (L : RingLaws H) (s : SeedPeers H) (v : IsSynced H L s) where
  abbrev chosen : Text → ℕ → List SeedPeer
  chosen task_id replicas =
      replicas_along s.hosts (min replicas (length s.hosts)) (L.walk s.hashring task_id)

  chosen_count :
      (task_id : Text) (replicas : ℕ)
      → length (chosen task_id replicas) ≡ min replicas (length s.hosts)
  chosen_count task_id replicas =
      replicas_count s.hosts v.hosts_named (min replicas (length s.hosts))
        (L.walk s.hashring task_id) (omega arith) (λ k m. v.ring_names task_id k ∙ m)

  -- Under the documented behaviour of the ring and with hosts and ring in step, the hosts that
  -- `select` gives for a positive number of replicas are known and healthy, of distinct names, at
  -- least one, and no more than the replicas asked for and the seed peers there are.
  pub select-IsChoice :
      (task_id : Text) (replicas : ℕ) (hs : List Host)
      → 0 < replicas
      → select H s task_id replicas ≡ some (ok hs)
      → IsChoice s.hosts (min replicas (length s.hosts)) hs
  select-IsChoice task_id replicas hs h e =
      IsChoice-of s.hosts v.hosts_named (min replicas (length s.hosts)) "selected seed peers"
        (chosen task_id replicas) hs
        (replicas-Distinct s.hosts v.hosts_named (min replicas (length s.hosts)) _)
        (replicas-IsKnown s.hosts v.hosts_named (min replicas (length s.hosts)) _)
        (omega (arith, chosen_count task_id replicas))
        (selected (is_empty s.hosts) (sym (select_lem H L s task_id replicas h) ∙ e))
    where
      selected :
          (b : Bool)
          → some (
              if b
              then err (host_not_found (text "seed peers"))
              else healthy_or "selected seed peers" (chosen task_id replicas))
            ≡ some (ok hs)
          → healthy_or "selected seed peers" (chosen task_id replicas) ≡ ok hs
      selected true q = cc
      selected false q = cc

  All-healthy :
      (ps : List SeedPeer)
      → All (IsKnown s.hosts v.hosts_named) ps
      → ((k : Text) (p : SeedPeer) → lookup k s.hosts ≡ some p → p.healthy ≡ true)
      → filter (λ p. p.healthy) ps ≡ ps
  All-healthy [] known h = refl
  All-healthy (p ∷ ps) known h =
      let kept = h p.host.name p known.0 in ground (arith, All-healthy ps known.1 h)

  -- Under the documented behaviour of the ring, with hosts and ring in step, and for a positive
  -- number of replicas: when every seed peer is healthy and there is one, `select` succeeds and
  -- gives exactly the replicas asked for, or all seed peers where these are fewer.
  pub select_all_healthy :
      (task_id : Text) (replicas : ℕ)
      → 0 < replicas
      → is_empty s.hosts ≡ false
      → ((k : Text) (p : SeedPeer) → lookup k s.hosts ≡ some p → p.healthy ≡ true)
      → (hs : List Host) × (select H s task_id replicas ≡ some (ok hs))
        × (length hs ≡ min replicas (length s.hosts))
  select_all_healthy task_id replicas h some_host healthy =
      let ps = chosen task_id replicas in
      let same =
        All-healthy ps (replicas-IsKnown s.hosts v.hosts_named (min replicas (length s.hosts)) _)
          healthy in
      let count : length (healthy_hosts ps) ≡ min replicas (length s.hosts) =
        length-map (λ p. p.host) (filter (λ p. p.healthy) ps)
        ∙ ap length same
        ∙ chosen_count task_id replicas in
      let some_name = nonempty s.hosts some_host in
      (
        healthy_hosts ps,
        rw (select_lem H L s task_id replicas h, some_host)
            (ap some (healthy_or-some "selected seed peers" ps (omega (arith, count)))),
        count,
      )
    where
      nonempty : (m : TextMap SeedPeer) → is_empty m ≡ false → 0 < length m
      nonempty [] e = cc
      nonempty (x ∷ m) e = omega arith
