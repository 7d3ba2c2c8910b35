-- ===== src/Shutdown.antt =====
-- client-request/rust/src/shutdown.rs: the wait for a signal that ends the service. A listener gets
-- the signals that come after it was made.
use dragonfly_sdk.Base.{
  ℕ, ◌%◌, ◌≡◌, refl, Bool, true, false, Option, none, some, List, [], ◌∷◌, arith, ◌==◌,
  if◌then◌else◌,
}

-- The signals that the process may get and live on, those that nothing here listens for together.
pub data SignalKind : Type 0 where
  interrupt terminate quit unlistened : SignalKind

-- The three listeners, and whether a signal waits at each.
pub record Listeners : Type 0 where
  pub sigint : Bool
  pub sigterm : Bool
  pub sigquit : Bool

abbrev pub new_listeners : Listeners
new_listeners = record { sigint = false; sigterm = false; sigquit = false }

-- The operating system hands a signal to the listeners there are.
unfoldable pub deliver : SignalKind → Listeners → Listeners
deliver interrupt l = record l { sigint = true }
deliver terminate l = record l { sigterm = true }
deliver quit l = record l { sigquit = true }
deliver unlistened l = l

abbrev pub is_received : Listeners → SignalKind → Bool
is_received l interrupt = l.sigint
is_received l terminate = l.sigterm
is_received l quit = l.sigquit
is_received l unlistened = false

-- The branches of the `select!`, which polls them in turn from a random one on.
unfoldable pub branches : ℕ → List SignalKind
branches start =
    if start % 3 == 0
    then interrupt ∷ terminate ∷ quit ∷ []
    else if start % 3 == 1
    then terminate ∷ quit ∷ interrupt ∷ []
    else quit ∷ interrupt ∷ terminate ∷ []

unfoldable pub first_received : Listeners → List SignalKind → Option SignalKind
first_received l [] = none
first_received l (k ∷ ks) =
    let rest = first_received l ks in if is_received l k then some k else rest

-- One poll: the signal that ends the wait, or `none` while it goes on.
unfoldable pub shutdown_signal : ℕ → Listeners → Option SignalKind
unfolding branches first_received
shutdown_signal start l = first_received l (branches start)

abbrev pub ends_service : SignalKind → Bool
ends_service interrupt = true
ends_service terminate = true
ends_service quit = true
ends_service unlistened = false

-- Whatever branch is polled first, new listeners end their wait at the first signal that one of
-- them listens for.
pub shutdown_signal-deliver :
    (start : ℕ) (k : SignalKind)
    → shutdown_signal start (deliver k new_listeners) ≡ (if ends_service k then some k else none)
unfolding shutdown_signal deliver
shutdown_signal-deliver start interrupt = ground arith
shutdown_signal-deliver start terminate = ground arith
shutdown_signal-deliver start quit = ground arith
shutdown_signal-deliver start unlistened = ground arith

pub deliver_unlistened : deliver unlistened new_listeners ≡ new_listeners
unfolding deliver
deliver_unlistened = refl
