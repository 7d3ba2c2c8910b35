-- ===== src/Proxy/Images/Waits.antt =====
-- client-request/rust/src/lib.rs: the wait of `preheat_image` and `delete_image` for their tasks.
use mathlib.Core.List.{Permᴰ}
use mathlib.Core.List.Permᴰ
use dragonfly_sdk.Base.{
  ℕ, ◌<◌, ◌≡◌, refl, sym, ap, ◌∙◌, subst, Bool, true, false, Option, some, List, [], ◌∷◌, ◌++◌, map,
  arith, ◌==◌, length, length-append, All, All-map, length-map, Permᴰ-All, length-Permᴰ,
}
use mathlib.Core.List.{append-nil}
use dragonfly_sdk.Errors.{Result, ok, err}
use dragonfly_sdk.Oci.{OciApi}
use dragonfly_sdk.Proxy.{Env}
use dragonfly_sdk.Proxy.Dfdaemon.{Dfdaemon}
use dragonfly_sdk.Proxy.Fanout.{join_all}
use dragonfly_sdk.Proxy.Fanout.Outcomes.{IsOk, join_all-ok, join_all-All}
use dragonfly_sdk.Oci.Images.{Registry}
use dragonfly_sdk.Proxy.Images.{wait_all, all_finished}

-- The documented behaviour of a semaphore and a join set: each task gives its result or waits, in
-- some order; and with a permit, none waits when every task returns.
pub record FinishedLaws (O : OciApi) (G : Registry O) : Type 0 where
  pub waiting : ℕ → List (Option (Result (Unit {0}))) → List (Option (Result (Unit {0})))
  pub all_tasks :
      (count : ℕ) (tasks : List (Option (Result (Unit {0}))))
      → Permᴰ tasks (map some (G.finished count tasks) ++ waiting count tasks)
  pub none_waits :
      (count : ℕ) (tasks : List (Option (Result (Unit {0}))))
      → 0 < count
      → All (λ t. (r : Result (Unit {0})) × (t ≡ some r)) tasks
      → waiting count tasks ≡ []

module _ (O : OciApi) (G : Registry O) (F : FinishedLaws O G) (E : Env) (D : Dfdaemon) where
  abbrev pub Succeeds : Option (Result (Unit {0})) → Type 0
  Succeeds t = t ≡ some (ok tt)

  pub some-All : (rs : List (Result (Unit {0}))) → All IsOk rs → All Succeeds (map some rs)
  some-All [] h = tt
  some-All (r ∷ rs) (h, hs) = (ap some h, some-All rs hs)

  pub All-some : (rs : List (Result (Unit {0}))) → All Succeeds (map some rs) → All IsOk rs
  All-some [] h = tt
  All-some (r ∷ rs) (h, hs) = (cc, All-some rs hs)

  nothing_left :
      {A : Type 0} (xs ys : List A) (n : ℕ) → length (xs ++ ys) ≡ n → length xs ≡ n → ys ≡ []
  nothing_left xs [] n h k = refl
  nothing_left xs (y ∷ ys) n h k = absurd (omega (arith, length-append xs (y ∷ ys)))

  all_finished-ok :
      (b : Bool) (r : Result (Unit {0}))
      → all_finished O G E D b r ≡ some (ok tt)
      → (b ≡ true) × IsOk r
  all_finished-ok b (err e) h = cc
  all_finished-ok true (ok _) h = (refl, refl)
  all_finished-ok false (ok _) h = cc

  pub finished_all :
      (count : ℕ) (tasks : List (Option (Result (Unit {0}))))
      → F.waiting count tasks ≡ []
      → Permᴰ tasks (map some (G.finished count tasks))
  finished_all count tasks h =
      subst (Permᴰ tasks) (ap (λ w. map some (G.finished count tasks) ++ w) h ∙ append-nil _)
        (F.all_tasks count tasks)

  pub wait_all-ok :
      (count : ℕ) (tasks : List (Option (Result (Unit {0}))))
      → wait_all O G E D count tasks ≡ some (ok tt)
      → All Succeeds tasks
  unfolding wait_all
  wait_all-ok count tasks h =
      let done = G.finished count tasks in
      let (all, succeeded) = all_finished-ok (length done == length tasks) (join_all D done) h in
      let whole : length done ≡ length tasks = ground arith in
      let none_waits =
        nothing_left (map some done) (F.waiting count tasks) (length tasks)
          (sym (length-Permᴰ (F.all_tasks count tasks)))
          (omega (arith, length-map some done, whole)) in
      Permᴰ-All Succeeds (Permᴰ.symm (finished_all count tasks none_waits))
        (some-All done (join_all-ok D done succeeded))

  -- Under the documented behaviour of a semaphore and a join set, and with a permit.
  pub wait_all-Succeeds :
      (count : ℕ) (tasks : List (Option (Result (Unit {0}))))
      → 0 < count
      → All Succeeds tasks
      → wait_all O G E D count tasks ≡ some (ok tt)
  unfolding wait_all
  wait_all-Succeeds count tasks h all =
      let done = G.finished count tasks in
      let perm =
        finished_all count tasks
          (F.none_waits count tasks h (All-map Succeeds (λ t s. (ok tt, s)) tasks all)) in
      let same : length done ≡ length tasks =
        omega (arith, length-map some done, length-Permᴰ perm) in
      let joined = join_all-All D done (All-some done (Permᴰ-All Succeeds perm all)) in
      rw joined (ground arith)
