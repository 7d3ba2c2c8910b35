-- ===== src/Selector/Service.antt =====
-- client-request/rust/src/selector.rs: the service that refreshes the seed peers, and the refreshes
-- and updates that run at the same time, each section under a lock being one step.
pub mod InStep
pub mod LastListing
use dragonfly_sdk.Base.{
  ℕ, ◌+◌, ◌-◌, ◌/◌, ◌≡◌, Bool, true, false, ◌&&◌, not, none, some, List, [], ◌∷◌, ◌++◌, TextMap,
}
use dragonfly_sdk.Errors.{Error, Result, ok, err}
use dragonfly_sdk.Shutdown.{SignalKind, Listeners, new_listeners, deliver, shutdown_signal}
use dragonfly_sdk.Selector.{
  SeedPeer, HashRing, SeedPeers, hosts_of, refresh_hosts, replace_hosts, refresh, empty_seed_peers,
}

-- What the loop of the service sees, in order: a tick, with whether another refresh holds the mutex,
-- what the scheduler client answers, and the signals that come while the refresh runs; or a signal
-- that comes while the loop waits, with the branch that the wait polls first.
pub data Event : Type 0 where
  tick : Bool → Result (List SeedPeer) → List SignalKind → Event
  signal : ℕ → SignalKind → Event

-- A call under way: a refresh that holds the mutex and waits for the scheduler, or an update, of a
-- refresh or by itself, before its first and before its second section under the write lock.
pub data Call : Type 0 where
  listing : Call
  comparing : Bool → TextMap SeedPeer → Call
  replacing : Bool → TextMap SeedPeer → Call

module _ (H : HashRing) where
  -- The loop at its `select!`, with the listeners of this turn. A tick drops them, so the signals
  -- that come during a refresh find no listener; the next turn makes new ones. A failed refresh is
  -- logged.
  unfoldable pub wait_turn : Listeners → SeedPeers H → List Event → SeedPeers H
  unfolding refresh shutdown_signal deliver
  wait_turn l s [] = s
  wait_turn l s (tick busy listed missed ∷ events) =
      wait_turn new_listeners (refresh H busy listed s).1 events
  wait_turn l s (signal start k ∷ events) = elim (shutdown_signal start (deliver k l)) [
    | some _ ↦ s
    | none ↦ wait_turn (deliver k l) s events
  ]

  -- `SeedPeerSelector::run`, from what it has.
  unfoldable pub run : SeedPeers H → List Event → SeedPeers H
  unfolding wait_turn
  run s events = wait_turn new_listeners s events

  -- The selector with the calls under way.
  pub record Shared : Type 0 where
    pub seed_peers : SeedPeers H
    pub locked : Bool
    pub calls : List Call

  abbrev pub initial : Shared
  initial = record { seed_peers = empty_seed_peers H; locked = false; calls = [] }

  -- The guard of a refresh, dropped when its update ends.
  abbrev pub unlock : Bool → Bool → Bool
  unlock held locked = locked && not held

  -- One step of one call; the calls before and after it stay.
  pub data Step : Shared → Shared → Type 0 where
    -- `refresh`: `try_lock` gives the guard, or the refresh ends at once.
    start_refresh :
        {s : Shared}
        → s.locked ≡ false
        → Step s (record s { locked = true; calls = listing ∷ s.calls })
    skip_refresh : {s : Shared} → s.locked ≡ true → Step s s
    fail_refresh :
        {s : Shared} (before after : List Call)
        → s.calls ≡ before ++ listing ∷ after
        → Step s (record s { locked = unlock true s.locked; calls = before ++ after })
    list_refresh :
        {s : Shared} (before after : List Call) (ps : List SeedPeer)
        → s.calls ≡ before ++ listing ∷ after
        → Step s (record s { calls = before ++ comparing true (hosts_of ps) ∷ after })
    -- `update`, called by itself.
    start_update :
        {s : Shared} (ps : List SeedPeer)
        → Step s (record s { calls = comparing false (hosts_of ps) ∷ s.calls })
    keep_ring :
        {s : Shared} (before after : List Call) (held : Bool) (hosts : TextMap SeedPeer)
        (kept : SeedPeers H)
        → s.calls ≡ before ++ comparing held hosts ∷ after
        → refresh_hosts H s.seed_peers hosts ≡ some kept
        → Step s
            (record { seed_peers = kept; locked = unlock held s.locked; calls = before ++ after })
    build_ring :
        {s : Shared} (before after : List Call) (held : Bool) (hosts : TextMap SeedPeer)
        → s.calls ≡ before ++ comparing held hosts ∷ after
        → refresh_hosts H s.seed_peers hosts ≡ none
        → Step s (record s { calls = before ++ replacing held hosts ∷ after })
    replace :
        {s : Shared} (before after : List Call) (held : Bool) (hosts : TextMap SeedPeer)
        → s.calls ≡ before ++ replacing held hosts ∷ after
        → Step s (record {
          seed_peers = replace_hosts H hosts;
          locked = unlock held s.locked;
          calls = before ++ after;
        })

  -- The states that such steps reach from a new selector.
  pub data Reachable : Shared → Type 0 where
    new : Reachable initial
    next : {s t : Shared} → Reachable s → Step s t → Reachable t
