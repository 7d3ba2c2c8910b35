-- ===== src/Proxy/Fanout/Outcomes.antt =====
-- client-request/rust/src/lib.rs: what a preheat that succeeds has done.
use mathlib.Core.List.{Permᴰ}
use mathlib.Core.List.Permᴰ
use dragonfly_sdk.Base.{
  ℕ, ◌≡◌, refl, sym, subst, ◌↔◌, some, List, [], ◌∷◌, map, All, Permᴰ-All, Text,
}
use dragonfly_sdk.Errors.{Result, ok, err, >>=-ok, map_err-ok, ok-injective, map_err}
use dragonfly_sdk.Requests.Files.{PreheatRequest}
use dragonfly_sdk.Selector.{Host}
use dragonfly_sdk.Proxy.{Env, Proxy, wrap}
use dragonfly_sdk.Retry.{RetrierLaws}
use dragonfly_sdk.Retry.Runs.{Attempts-ok, run-Attempts}
use dragonfly_sdk.Proxy.Dfdaemon.{Dfdaemon}
use dragonfly_sdk.Proxy.Fanout.{
  call_peer, Answer, join_all, peer_address, peer_addresses, peer_result, call_all, download,
  download_of, preheat_on, enough_peers, check_duration,
}

-- The documented behaviour of a join set: it gives every result, in some order.
pub record JoinLaws (D : Dfdaemon) : Type 0 where
  pub joined : (rs : List (Result (Unit {0}))) → Permᴰ rs (D.joined rs)

abbrev pub IsOk : Result (Unit {0}) → Type 0
IsOk r = r ≡ ok tt

module _ (D : Dfdaemon) where
  pub join_all-ok : (rs : List (Result (Unit {0}))) → join_all D rs ≡ ok tt → All IsOk rs
  unfolding join_all
  join_all-ok [] h = tt
  join_all-ok (ok _ ∷ rs) h = (refl, join_all-ok rs h)
  join_all-ok (err e ∷ rs) h = cc

  pub join_all-All : (rs : List (Result (Unit {0}))) → All IsOk rs → join_all D rs ≡ ok tt
  unfolding join_all
  join_all-All [] h = refl
  join_all-All (ok _ ∷ rs) (h, hs) = join_all-All rs hs
  join_all-All (err e ∷ rs) (h, hs) = cc

  module _ (J : JoinLaws D) (E : Env) (p : Proxy E) (network : Text → D.Net) (timeout : ℕ)
      (call : D.Channel → D.Net → Answer D) where
    -- A seed peer with an address, whose task succeeds.
    abbrev pub Answers : Host → Type 0
    Answers h =
        (address : Text) × (peer_address D E h ≡ ok address)
        × (peer_result D E p network timeout call address ≡ ok tt)

    abbrev results : List Text → List (Result (Unit {0}))
    results addresses = map (peer_result D E p network timeout call) addresses

    answered :
        (hosts : List Host) (addresses : List Text)
        → peer_addresses D E hosts ≡ ok addresses
        → All IsOk (results addresses)
        → All Answers hosts
    unfolding peer_addresses
    answered [] addresses e h = tt
    answered (host ∷ hosts) addresses e h =
        let (address, found, more) = >>=-ok (peer_address D E host) _ e in
        let (rest, others, whole) = >>=-ok (peer_addresses D E hosts) _ more in
        let (one, all) = subst (λ found. All IsOk (results found)) (sym (ok-injective whole)) h in
        ((address, found, one), answered hosts rest others all)

    addressed :
        (hosts : List Host)
        → All Answers hosts
        → (addresses : List Text) × (peer_addresses D E hosts ≡ ok addresses)
          × All IsOk (results addresses)
    unfolding peer_addresses
    addressed [] h = ([], refl, tt)
    addressed (host ∷ hosts) ((address, found, one), h) =
        let (rest, others, all) = addressed hosts h in
        (address ∷ rest, rw (found, others) refl, (one, all))

    -- Under the documented behaviour of a join set, a call of every seed peer succeeds exactly when
    -- each one has an address and its task succeeds, in whatever order the tasks finish.
    pub call_all_iff :
        (hosts : List Host)
        → (call_all D E p network timeout call hosts ≡ ok tt) ↔ All Answers hosts
    unfolding call_all
    call_all_iff hosts = (
      λ h.
          let (addresses, found, joined) = >>=-ok (peer_addresses D E hosts) _ h in
          answered hosts addresses found (
            Permᴰ-All IsOk (Permᴰ.symm (J.joined (results addresses)))
              (join_all-ok (D.joined (results addresses)) joined)),
      λ h.
          let (addresses, found, all) = addressed hosts h in
          rw found (
            join_all-All (D.joined (results addresses))
              (Permᴰ-All IsOk (J.joined (results addresses)) all)),
    )

pub unwrap {ℓ} : {A : Type ℓ} {a b : A} → some a ≡ some b → a ≡ b
unwrap e = cc

module _ (D : Dfdaemon) (E : Env) (p : Proxy E) (network : Text → D.Net) where
  pub preheat_on-ok :
      (r : PreheatRequest E.http) (selected : Result (List Host))
      → preheat_on D E p network r selected ≡ ok tt
      → (hosts : List Host) × (selected ≡ ok hosts)
        × (enough_peers D E r.scope r.replicas hosts ≡ ok tt)
        × (call_all D E p network r.timeout (download D (download_of D E r)) hosts ≡ ok tt)
  unfolding preheat_on
  preheat_on-ok r selected h =
      let (hosts, found, checked) =
        >>=-ok (map_err (wrap E "failed to select seed peers: ") selected) _ h in
      let (_, enough, timed) = >>=-ok (enough_peers D E r.scope r.replicas hosts) _ checked in
      let (_, _, called) = >>=-ok (check_duration D E r.timeout) _ timed in
      (hosts, map_err-ok _ selected found, enough, called)

module _ (D : Dfdaemon) (E : Env) (timeout : ℕ) (call : D.Channel → D.Net → Answer D) where
  -- A seed peer with an address, on which an attempt of the call succeeded.
  abbrev pub Reached : Host → Type 0
  Reached h =
      (address : Text) × (peer_address D E h ≡ ok address)
      × (before : D.Net) × (after : D.Net) × (call_peer D address timeout call before
          ≡ (after, ok tt))

  pub Answers-Reached :
      (J : JoinLaws D) (R : RetrierLaws E.retrier) (p : Proxy E) (network : Text → D.Net) (h : Host)
      → Answers D J E p network timeout call h
      → Reached h
  unfolding peer_result
  Answers-Reached J R p network h (address, found, served) =
      let (n, made, _, _, _, _, _) =
        run-Attempts E.retrier R D.Net (Unit {0}) p.retry D.timer (call_peer D address timeout call)
          (network address) in
      let (before, last) = Attempts-ok made tt served in (address, found, before, _, last)
