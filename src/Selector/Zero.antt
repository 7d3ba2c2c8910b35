-- ===== src/Selector/Zero.antt =====
-- client-request/rust/src/selector.rs: the window of a selection of no replicas never grows.
use dragonfly_sdk.Base.{
  ℕ, zero, suc, ◌<◌, ◌≡◌, refl, false, none, some, [], ◌∷◌, arith, leb, Text, contains, lookup,
}
use dragonfly_sdk.Selector.{SeedPeer, HashRing, SeedPeers, collect, grow_window}

-- When the ring answers a window of size zero by one virtual node of a known host, and the ring has
-- more nodes than that, then a selection of no replicas doubles a window of size zero without end:
-- no fuel is enough.
pub grow_window_stuck :
    (H : HashRing) (s : SeedPeers H) (task_id vnode : Text) (p : SeedPeer)
    → H.get_with_replicas s.hashring task_id 0 ≡ some (vnode ∷ [])
    → lookup vnode s.hosts ≡ some p
    → 1 < H.len s.hashring
    → (fuel : ℕ) → grow_window H s task_id 0 fuel 0 ≡ none
unfolding grow_window collect contains
grow_window_stuck H s task_id vnode p window known long zero = refl
grow_window_stuck H s task_id vnode p window known long (suc fuel) =
    let short : leb (H.len s.hashring) 1 ≡ false = ground arith in
    rw (window, collect, known, short, grow_window)
      (grow_window_stuck H s task_id vnode p window known long fuel)
