-- ===== src/Selector/Service/LastListing.antt =====
-- client-request/rust/src/selector.rs: the hosts that the service has after what it saw.
use dragonfly_sdk.Base.{◌≡◌, refl, ap, ◌∙◌, true, false, List, [], ◌∷◌, if◌then◌else◌, TextMap}
use dragonfly_sdk.Errors.{ok, err}
use dragonfly_sdk.Selector.{SeedPeer, HashRing, SeedPeers, hosts_of, refresh, update}
use dragonfly_sdk.Selector.Ring.{RingLaws}
use dragonfly_sdk.Selector.Synced.{IsSynced, update-IsSynced}
use dragonfly_sdk.Selector.Service.{Event, tick, signal, wait_turn, run}
use dragonfly_sdk.Shutdown.{
  interrupt, terminate, quit, unlistened, new_listeners, ends_service, shutdown_signal-deliver,
  deliver_unlistened,
}

-- The listings that refreshes of the service got before a signal ended it.
abbrev pub listings : List Event → List (List SeedPeer)
listings [] = []
listings (signal _ k ∷ events) = let later = listings events in if ends_service k then [] else later
listings (tick true listed _ ∷ events) = listings events
listings (tick false (err e) _ ∷ events) = listings events
listings (tick false (ok ps) _ ∷ events) = ps ∷ listings events

-- The hosts of the last listing, or those of before.
abbrev pub last_hosts : TextMap SeedPeer → List (List SeedPeer) → TextMap SeedPeer
last_hosts hosts [] = hosts
last_hosts hosts (ps ∷ more) = last_hosts (hosts_of ps) more

module _ (H : HashRing) (L : RingLaws H) where
  abbrev HasLast : SeedPeers H → List Event → SeedPeers H → Type 0
  HasLast s events end = IsSynced H L end × (end.hosts ≡ last_hosts s.hosts (listings events))

  wait_turn-HasLast :
      (s : SeedPeers H) (events : List Event)
      → IsSynced H L s
      → HasLast s events (wait_turn H new_listeners s events)
  unfolding wait_turn refresh
  wait_turn-HasLast s [] v = (v, refl)
  wait_turn-HasLast s (signal start interrupt ∷ events) v =
      rw (shutdown_signal-deliver start interrupt, wait_turn) (v, refl)
  wait_turn-HasLast s (signal start terminate ∷ events) v =
      rw (shutdown_signal-deliver start terminate, wait_turn) (v, refl)
  wait_turn-HasLast s (signal start quit ∷ events) v =
      rw (shutdown_signal-deliver start quit, wait_turn) (v, refl)
  wait_turn-HasLast s (signal start unlistened ∷ events) v =
      rw (shutdown_signal-deliver start unlistened, deliver_unlistened, wait_turn)
        (wait_turn-HasLast s events v)
  wait_turn-HasLast s (tick true listed _ ∷ events) v = wait_turn-HasLast s events v
  wait_turn-HasLast s (tick false (err e) _ ∷ events) v = wait_turn-HasLast s events v
  wait_turn-HasLast s (tick false (ok ps) _ ∷ events) v =
      let (w, same) = update-IsSynced H L s ps v in
      let (synced, last) = wait_turn-HasLast (update H s ps) events w in
      (synced, last ∙ ap (λ hosts. last_hosts hosts (listings events)) same)

  -- Under the documented behaviour of the ring, and from hosts and ring in step: whatever ticks and
  -- signals the service sees, it leaves them in step, and the hosts are those of the last listing
  -- that succeeded while no other refresh ran and before the first SIGINT, SIGTERM or SIGQUIT that
  -- came while the loop waited, or without one those of before. A listing that fails, one after
  -- such a signal, and a signal that comes while a refresh runs change nothing: the service goes on
  -- after the latter.
  pub run-last_hosts :
      (s : SeedPeers H) (events : List Event)
      → IsSynced H L s
      → IsSynced H L (run H s events)
        × ((run H s events).hosts ≡ last_hosts s.hosts (listings events))
  unfolding run
  run-last_hosts s events v = wait_turn-HasLast s events v
