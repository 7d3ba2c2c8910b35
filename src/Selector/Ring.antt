-- ===== src/Selector/Ring.antt =====
-- The documented behaviour of the hash ring that the selector relies on.
use dragonfly_sdk.Base.{
  ℕ, ◌≤◌, min, ◌≡◌, false, ◌||◌, List, [], unwrap_or, length, take, Text, text_eq, contains,
}
use dragonfly_sdk.Selector.{HashRing}

-- A key fixes the clockwise order of all virtual nodes. A window is a prefix of that order, at
-- least as long as asked for or all of it. A host that is added has a virtual node, and adding it
-- removes none.
pub record RingLaws (H : HashRing) : Type 0 where
  pub walk : H.Ring → Text → List Text
  pub length-walk : (r : H.Ring) (k : Text) → length (walk r k) ≡ H.len r
  pub window_size : H.Ring → Text → ℕ → ℕ
  pub window_walk :
      (r : H.Ring) (k : Text) (w : ℕ)
      → unwrap_or [] (H.get_with_replicas r k w) ≡ take (window_size r k w) (walk r k)
  pub window_enough : (r : H.Ring) (k : Text) (w : ℕ) → min w (H.len r) ≤ window_size r k w
  pub contains-walk_new : (k n : Text) → contains n (walk H.new k) ≡ false
  pub contains-walk_add :
      (r : H.Ring) (k n m : Text)
      → contains n (walk (H.add r m) k) ≡ (text_eq m n || contains n (walk r k))
