-- ===== src/Selector/Reuse.antt =====
-- client-request/rust/src/selector.rs: an update keeps the ring when the names stay.
use dragonfly_sdk.Base.{
  ◌≡◌, refl, sym, ◌∙◌, true, ◌&&◌, List, arith, ◌==◌, length, length-map, Text, contains, keys,
  Within, length-Within,
}
use dragonfly_sdk.Selector.{
  SeedPeer, HashRing, SeedPeers, hosts_of, all_known, refresh_hosts, update,
}
use dragonfly_sdk.Selector.Ring.{RingLaws}
use dragonfly_sdk.Selector.Synced.{IsSynced, hosts_of-IsNamed, Within-all_known}

module _ (H : HashRing) (L : RingLaws H) where
  -- Under the documented behaviour of the ring and with hosts and ring in step: an update with seed
  -- peers of the same names, whatever their order, addresses and health, keeps the ring, so that
  -- every task stays at its position.
  pub update-hashring :
      (s : SeedPeers H) (ps : List SeedPeer)
      → IsSynced H L s
      → ((k : Text) → contains k (keys (hosts_of ps)) ≡ contains k (keys s.hosts))
      → (update H s ps).hashring ≡ s.hashring
  unfolding update refresh_hosts
  update-hashring s ps v same =
      let w = hosts_of-IsNamed ps in
      let within : Within (keys (hosts_of ps)) (keys s.hosts) = λ k m. sym (same k) ∙ m in
      let back : Within (keys s.hosts) (keys (hosts_of ps)) = λ k m. same k ∙ m in
      let count : length s.hosts ≡ length (hosts_of ps) = omega (
        arith,
        length-Within (keys s.hosts) (keys (hosts_of ps)) v.hosts_named.distinct back,
        length-Within (keys (hosts_of ps)) (keys s.hosts) w.distinct within,
        length-map (λ (e : Text × SeedPeer). e.0) s.hosts,
        length-map (λ (e : Text × SeedPeer). e.0) (hosts_of ps),
      ) in
      let kept : (length s.hosts == length (hosts_of ps) && all_known s.hosts (keys (hosts_of ps)))
          ≡ true =
        ground (arith, count, Within-all_known s.hosts (keys (hosts_of ps)) within) in
      rw (kept, update) refl
