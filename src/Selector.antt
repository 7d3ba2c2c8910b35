-- ===== src/Selector.antt =====
-- client-request/rust/src/selector.rs: the seed peers, their health, and the choice of the
-- replicas that serve a task. The hash ring is the dragonfly_hashring crate's, an argument here.
pub mod Ring
pub mod Zero
pub mod Windows
pub mod Replicas
pub mod Synced
pub mod Given
pub mod Reuse
pub mod Names
pub mod Choice
pub mod Ejections
pub mod Service
use dragonfly_sdk.Base.{
  ℕ, zero, suc, ◌+◌, ◌-◌, ◌*◌, ◌/◌, min, String, Bool, true, false, ◌&&◌, ◌||◌, not, Option, none,
  some, List, [], ◌∷◌, ◌++◌, map, leb, ◌==◌, if◌then◌else◌, unwrap_or, length, filter, is_empty,
  Text, text, contains, TextMap, lookup, insert, contains_key, keys, values, ℤ,
}
use mathlib.Core.Option
use dragonfly_sdk.Errors.{Error, Result, ok, err, host_not_found}

-- What the code reads of a host of the scheduler's API; the ports are `i32`.
pub record Host : Type 0 where
  pub name : Text
  pub ip : Text
  pub port : ℤ
  pub proxy_port : ℤ

pub record SeedPeer : Type 0 where
  pub host : Host
  pub healthy : Bool

-- What the code uses of the hash ring: a ring holds virtual nodes, each named after a host.
pub record HashRing : Type 1 where
  pub Ring : Type 0
  pub new : Ring
  pub add : Ring → Text → Ring
  pub len : Ring → ℕ
  -- The names of the virtual nodes at and behind the position of a key.
  pub get_with_replicas : Ring → Text → ℕ → Option (List Text)

-- The map by host name; of two seed peers of one name the later stays.
hosts_loop : TextMap SeedPeer → List SeedPeer → TextMap SeedPeer
hosts_loop hosts [] = hosts
hosts_loop hosts (p ∷ ps) = hosts_loop (insert p.host.name p hosts) ps

unfoldable pub hosts_of : List SeedPeer → TextMap SeedPeer
unfolding hosts_loop
hosts_of seed_peers = hosts_loop [] seed_peers

unfoldable pub all_known : TextMap SeedPeer → List Text → Bool
all_known known [] = true
all_known known (k ∷ ks) = contains_key k known && all_known known ks

-- One window of virtual nodes: the distinct seed peers among them, up to the expected number.
unfoldable pub collect :
    TextMap SeedPeer → ℕ → List Text → List SeedPeer → List Text → List SeedPeer
collect hosts expected seen found [] = found
collect hosts expected seen found (v ∷ vnodes) = elim (contains v seen) [
  | true ↦ collect hosts expected seen found vnodes
  | false ↦ elim (lookup v hosts) [
    | none ↦ collect hosts expected (v ∷ seen) found vnodes
    | some p ↦ elim (length (found ++ p ∷ []) == expected) [
      | true ↦ found ++ p ∷ []
      | false ↦ collect hosts expected (v ∷ seen) (found ++ p ∷ []) vnodes
    ]
  ]
]

abbrev pub healthy_hosts : List SeedPeer → List Host
healthy_hosts ps = map (λ p. p.host) (filter (λ p. p.healthy) ps)

unfoldable pub healthy_or : String → List SeedPeer → Result (List Host)
healthy_or what ps =
    if is_empty (healthy_hosts ps) then err (host_not_found (text what)) else ok (healthy_hosts ps)

module _ (H : HashRing) where
  pub record SeedPeers : Type 0 where
    pub hosts : TextMap SeedPeer
    pub hashring : H.Ring

  abbrev pub empty_seed_peers : SeedPeers
  empty_seed_peers = record { hosts = []; hashring = H.new }

  -- Under the write lock: the ring stays when the host names are the same.
  unfoldable pub refresh_hosts : SeedPeers → TextMap SeedPeer → Option SeedPeers
  unfolding all_known
  refresh_hosts s hosts =
      if length s.hosts == length hosts && all_known s.hosts (keys hosts)
      then some (record s { hosts = hosts })
      else none

  unfoldable pub build_ring : H.Ring → List Text → H.Ring
  build_ring ring [] = ring
  build_ring ring (k ∷ ks) = build_ring (H.add ring k) ks

  -- Under the write lock again: the hosts and their ring, built from no earlier state.
  unfoldable pub replace_hosts : TextMap SeedPeer → SeedPeers
  unfolding build_ring
  replace_hosts hosts = record { hosts = hosts; hashring = build_ring H.new (keys hosts) }

  unfoldable pub update : SeedPeers → List SeedPeer → SeedPeers
  unfolding hosts_of refresh_hosts replace_hosts
  update s seed_peers = elim (refresh_hosts s (hosts_of seed_peers)) [
    | some s' ↦ s'
    | none ↦ replace_hosts (hosts_of seed_peers)
  ]

  -- `busy`: another refresh holds the mutex. `listed` is what the scheduler client answers.
  unfoldable pub refresh : Bool → Result (List SeedPeer) → SeedPeers → Result (Unit {0}) × SeedPeers
  unfolding update
  refresh true listed s = (ok tt, s)
  refresh false (err e) s = (err e, s)
  refresh false (ok seed_peers) s = (ok tt, update s seed_peers)

  abbrev pub window_vnodes : SeedPeers → Text → ℕ → List Text
  window_vnodes s task_id window = unwrap_or [] (H.get_with_replicas s.hashring task_id window)

  -- The loop that doubles the window; `none` means that the fuel ran out.
  unfoldable pub grow_window : SeedPeers → Text → ℕ → ℕ → ℕ → Option (List SeedPeer)
  unfolding collect
  grow_window s task_id expected zero window = none
  grow_window s task_id expected (suc fuel) window =
      let vnodes = window_vnodes s task_id window in
      let found = collect s.hosts expected [] [] vnodes in
      elim (length found == expected || leb (H.len s.hashring) (length vnodes)) [
        | true ↦ some found
        | false ↦ grow_window s task_id expected fuel (window * 2)
      ]

  abbrev pub expected_replicas : SeedPeers → ℕ → ℕ
  expected_replicas s replicas = min replicas (length s.hosts)

  -- `none` stands for a call that does not return. The fuel allows for every doubling up to the
  -- size of the ring.
  unfoldable pub select : SeedPeers → Text → ℕ → Option (Result (List Host))
  unfolding grow_window healthy_or
  select s task_id replicas =
      let expected = expected_replicas s replicas in
      let window = expected * 2 in
      let fuel = suc (H.len s.hashring) in
      if is_empty s.hosts
      then some (err (host_not_found (text "seed peers")))
      else Option.map (healthy_or "selected seed peers")
          (grow_window s task_id expected fuel window)

  unfoldable pub select_all : SeedPeers → Result (List Host)
  unfolding healthy_or
  select_all s = healthy_or "seed peers" (values s.hosts)
