-- ===== src/Selector/Replicas.antt =====
-- client-request/rust/src/selector.rs: the loop over growing windows ends, with what one walk round
-- the whole ring gives.
use dragonfly_sdk.Base.{
  ℕ, zero, suc, ◌+◌, ◌*◌, ◌≤◌, ◌<◌, min, ◌≡◌, sym, ap, ◌∙◌, ◌⊎◌, inl, inr, Bool, true, false, ◌||◌,
  some, List, [], ◌∷◌, arith, leb, ◌==◌, if◌then◌else◌, Bool-cases, length, take, is_empty,
  length-take, Text, text, TextMap,
}
use dragonfly_sdk.Errors.{err, host_not_found}
use dragonfly_sdk.Selector.{
  SeedPeer, HashRing, SeedPeers, collect, window_vnodes, grow_window, healthy_or, select,
}
use dragonfly_sdk.Selector.Ring.{RingLaws}
use dragonfly_sdk.Selector.Windows.{replicas_along, collect_walk, window_walk_eq}

module _ (H : HashRing) (L : RingLaws H) (s : SeedPeers H) (task_id : Text) (expected : ℕ)
    (some_expected : 0 < expected) where
  abbrev ring_walk : List Text
  ring_walk = L.walk s.hashring task_id

  abbrev goal : List SeedPeer
  goal = replicas_along s.hosts expected ring_walk

  abbrev size : ℕ
  size = H.len s.hashring

  abbrev got : ℕ → List SeedPeer
  got window = collect s.hosts expected [] [] (window_vnodes H s task_id window)

  abbrev stops : ℕ → Bool
  stops window =
      length (got window) == expected || leb size (length (window_vnodes H s task_id window))

  got_prefix :
      (window : ℕ)
      → got window
        ≡ replicas_along s.hosts expected (take (L.window_size s.hashring task_id window) ring_walk)
  got_prefix window =
      ap (collect s.hosts expected [] []) (L.window_walk s.hashring task_id window)
      ∙ collect_walk s.hosts expected some_expected _

  size_of_window :
      (window : ℕ)
      → length (window_vnodes H s task_id window)
        ≡ min (L.window_size s.hashring task_id window) size
  size_of_window window =
      ap length (L.window_walk s.hashring task_id window)
      ∙ length-take (L.window_size s.hashring task_id window) ring_walk
      ∙ ap (min (L.window_size s.hashring task_id window)) (L.length-walk s.hashring task_id)

  why_stopped :
      (window : ℕ)
      → stops window ≡ true
      → (length (got window) ≡ expected) ⊎ (size ≤ length (window_vnodes H s task_id window))
  why_stopped window stop = ground arith

  -- What a window gives when the loop stops.
  got-goal : (window : ℕ) → stops window ≡ true → got window ≡ goal
  got-goal window stop =
      got_prefix window
      ∙ window_walk_eq s.hosts expected some_expected ring_walk
          (L.window_size s.hashring task_id window)
          (elim (why_stopped window stop) [
            | inl full ↦ inl (sym (ap length (got_prefix window)) ∙ full)
            | inr covered ↦
                inr
                  (omega (arith, size_of_window window, L.length-walk s.hashring task_id, covered))
          ])

  window_long : (window : ℕ) → size ≤ window → stops window ≡ true
  window_long window h =
      stops_of_long (length (got window) == expected) (length (window_vnodes H s task_id window))
        (omega (arith, size_of_window window, L.window_enough s.hashring task_id window))
    where
      stops_of_long : (b : Bool) (n : ℕ) → size ≤ n → (b || leb size n) ≡ true
      stops_of_long b n le = ground arith

  fuel_left : (fuel window : ℕ) → stops window ≡ false → size < window + suc fuel → 0 < fuel
  fuel_left zero window on h = cc (window_long window (omega arith))
  fuel_left (suc fuel) window on h = omega arith

  -- The window doubles, so it outgrows the ring before the fuel runs out.
  grow_window_lem :
      (fuel window : ℕ)
      → 0 < window
      → size < window + fuel
      → 0 < fuel
      → grow_window H s task_id expected fuel window ≡ some goal
  unfolding grow_window
  grow_window_lem zero window w h f = absurd (omega arith)
  grow_window_lem (suc fuel) window w h f = elim (Bool-cases (stops window)) [
    | inl stop ↦ rw (stop, grow_window) (ap some (got-goal window stop))
    | inr on ↦
        rw (on, grow_window)
          (grow_window_lem fuel (window * 2) (omega arith) (omega arith)
            (fuel_left fuel window on h))
  ]

-- Under the documented behaviour of the ring, `select` for a positive number of replicas returns.
-- Without seed peers it fails. Else it reads off one walk round the ring from the task's position
-- the distinct seed peers, as many as `replicas` and the seed peers allow, and gives the healthy
-- ones among these in that order, or fails when there is none.
pub select_lem :
    (H : HashRing) (L : RingLaws H) (s : SeedPeers H) (task_id : Text) (replicas : ℕ)
    → 0 < replicas
    → select H s task_id replicas
      ≡ some (
          if is_empty s.hosts
          then err (host_not_found (text "seed peers"))
          else healthy_or "selected seed peers"
              (replicas_along s.hosts (min replicas (length s.hosts)) (L.walk s.hashring task_id)))
unfolding select
select_lem H L s task_id replicas h = elim (Bool-cases (is_empty s.hosts)) [
  | inl none_known ↦ rw (none_known, select)
  | inr known ↦
      let some_host : 0 < length s.hosts = nonempty s.hosts known in
      let expected = min replicas (length s.hosts) in
      rw (
        known,
        select,
        grow_window_lem H L s task_id expected (omega arith) (suc (H.len s.hashring)) (expected * 2)
            (omega arith) (omega arith) (omega arith),
      )
]
  where
    nonempty : (m : TextMap SeedPeer) → is_empty m ≡ false → 0 < length m
    nonempty [] e = cc
    nonempty (x ∷ m) e = omega arith
