-- ===== src/Selector/Service/InStep.antt =====
-- client-request/rust/src/selector.rs: refreshes and updates at the same time keep the hosts and the
-- ring in step, and at most one refresh runs.
use dragonfly_sdk.Base.{
  ℕ, ◌+◌, ◌≡◌, refl, sym, ap, ◌∙◌, subst, Bool, true, false, List, [], ◌∷◌, ◌++◌, arith,
  if◌then◌else◌, All, All_without, All_with,
}
use dragonfly_sdk.Selector.{HashRing, hosts_of}
use dragonfly_sdk.Selector.Ring.{RingLaws}
use dragonfly_sdk.Selector.Synced.{
  IsNamed, IsSynced, empty-IsSynced, hosts_of-IsNamed, replace-IsSynced, refresh-IsSynced,
}
use dragonfly_sdk.Selector.Service.{
  Call, listing, comparing, replacing, Shared, Step, Reachable, unlock, start_refresh, skip_refresh,
  fail_refresh, list_refresh, start_update, keep_ring, build_ring, replace, new, next,
}

-- Whether a call holds the guard of the mutex.
abbrev pub holds : Call → ℕ
holds listing = 1
holds (comparing held hosts) = if held then 1 else 0
holds (replacing held hosts) = if held then 1 else 0

abbrev pub holders : List Call → ℕ
holders [] = 0
holders (c ∷ cs) = holds c + holders cs

abbrev NamedCall : Call → Type 0
NamedCall listing = Unit
NamedCall (comparing held hosts) = IsNamed hosts
NamedCall (replacing held hosts) = IsNamed hosts

holders_middle :
    (before after : List Call) (c : Call)
    → holders (before ++ c ∷ after) ≡ holds c + holders (before ++ after)
holders_middle [] after c = refl
holders_middle (b ∷ before) after c = omega (arith, holders_middle before after c)

module _ (H : HashRing) (L : RingLaws H) where
  -- Hosts and ring in step, calls that wait with a map of hosts by name, and a mutex that is locked
  -- exactly when one call holds its guard.
  pub record IsInStep (s : Shared H) : Type 0 where
    pub synced : IsSynced H L s.seed_peers
    pub named : All NamedCall s.calls
    pub guarded : holders s.calls ≡ (if s.locked then 1 else 0)

  unlocked :
      (held locked : Bool) (n : ℕ)
      → (if held then 1 else 0) + n ≡ (if locked then 1 else 0)
      → n ≡ (if unlock H held locked then 1 else 0)
  unlocked held locked n h = ground arith

  opened : (n : ℕ) (locked : Bool) → locked ≡ false → n ≡ (if locked then 1 else 0) → 1 + n ≡ 1
  opened n locked free h = ground arith

  Step-IsInStep : {s t : Shared H} → Step H s t → IsInStep s → IsInStep t
  Step-IsInStep (start_refresh {s = s} free) v = record {
    synced = v.synced;
    named = (tt, v.named);
    guarded = opened (holders s.calls) s.locked free v.guarded;
  }
  Step-IsInStep (skip_refresh busy) v = v
  Step-IsInStep (fail_refresh {s = s} before after e) v = record {
    synced = v.synced;
    named = (All_without NamedCall before after listing (subst (All NamedCall) e v.named)).1;
    guarded =
        unlocked true s.locked (holders (before ++ after))
          (sym (holders_middle before after listing) ∙ ap holders (sym e) ∙ v.guarded);
  }
  Step-IsInStep (list_refresh before after ps e) v = record {
    synced = v.synced;
    named =
        All_with NamedCall before after (comparing true (hosts_of ps)) (hosts_of-IsNamed ps)
          (All_without NamedCall before after listing (subst (All NamedCall) e v.named)).1;
    guarded = omega (
      arith,
      holders_middle before after listing,
      holders_middle before after (comparing true (hosts_of ps)),
      ap holders e,
      v.guarded,
    );
  }
  Step-IsInStep (start_update ps) v = record {
    synced = v.synced;
    named = (hosts_of-IsNamed ps, v.named);
    guarded = omega (arith, v.guarded);
  }
  Step-IsInStep (keep_ring {s = s} before after held hosts kept e same) v =
      let (hosts_named, others) =
        All_without NamedCall before after (comparing held hosts)
          (subst (All NamedCall) e v.named) in
      record {
        synced = (refresh-IsSynced H L s.seed_peers hosts kept hosts_named v.synced same).0;
        named = others;
        guarded = unlocked held s.locked (holders (before ++ after)) (
            sym (holders_middle before after (comparing held hosts))
            ∙ ap holders (sym e)
            ∙ v.guarded);
      }
  Step-IsInStep (build_ring before after held hosts e differ) v =
      let (hosts_named, others) =
        All_without NamedCall before after (comparing held hosts)
          (subst (All NamedCall) e v.named) in
      record {
        synced = v.synced;
        named = All_with NamedCall before after (replacing held hosts) hosts_named others;
        guarded =
            holders_middle before after (replacing held hosts)
            ∙ sym (holders_middle before after (comparing held hosts))
            ∙ ap holders (sym e)
            ∙ v.guarded;
      }
  Step-IsInStep (replace {s = s} before after held hosts e) v =
      let (hosts_named, others) =
        All_without NamedCall before after (replacing held hosts)
          (subst (All NamedCall) e v.named) in
      record {
        synced = replace-IsSynced H L hosts hosts_named;
        named = others;
        guarded = unlocked held s.locked (holders (before ++ after)) (
            sym (holders_middle before after (replacing held hosts))
            ∙ ap holders (sym e)
            ∙ v.guarded);
      }

  -- Under the documented behaviour of the ring, and however the sections under the locks interleave:
  -- in every state that refreshes and updates reach from a new selector, the hosts are keyed by
  -- their names and the ring has virtual nodes of exactly these names; and the mutex is locked
  -- exactly when one refresh runs, no second one ever running beside it.
  pub Reachable-IsInStep : {s : Shared H} → Reachable H s → IsInStep s
  Reachable-IsInStep new = record { synced = empty-IsSynced H L; named = tt; guarded = refl }
  Reachable-IsInStep (next r step) = Step-IsInStep step (Reachable-IsInStep r)
