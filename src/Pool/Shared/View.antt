-- ===== src/Pool/Shared/View.antt =====
-- client-request/rust/src/pool.rs: the pool whose entries share their instants does what the pool of
-- plain entries does.
use dragonfly_sdk.Base.{
  ℕ, ◌-◌, ◌/◌, ◌≡◌, refl, sym, ap, ap₂, ◌∙◌, subst, ◌≢◌, inl, inr, Bool, Option, none, some, [],
  ◌∷◌, map, arith, ltb, Bool-cases, Option-cases, All, length-map, Text, text_eq, TextMap, lookup,
  insert,
}
use mathlib.Core.Option
use dragonfly_sdk.Pool.{retain, Entry, Pool, cleanup_idle_entries, reuse, or_insert, set_actived_at}
use dragonfly_sdk.Pool.Owned.{Holds, lookup-Holds}
use dragonfly_sdk.Pool.Shared.{
  Handle, SharedPool, read_entry, write, cleanup_shared, reuse_shared, or_insert_shared, place,
}
use dragonfly_sdk.Pool.Shared.Separate.{Avoids, Apart, IsSeparate, new-Avoids}

write_other :
    (cell now c : ℕ) (instants : ℕ → ℕ) → c ≢ cell → write cell now instants c ≡ instants c
write_other cell now c instants h = ground arith

write_self : (cell now : ℕ) (instants : ℕ → ℕ) → write cell now instants cell ≡ now
write_self cell now instants = ground arith

module _ {ℓ} {T : Type ℓ} where
  abbrev pub view_item : (ℕ → ℕ) → Text × Handle T → Text × Entry T
  view_item instants (k, h) = (k, read_entry instants h)

  abbrev pub view_map : (ℕ → ℕ) → TextMap (Handle T) → TextMap (Entry T)
  view_map instants m = map (view_item instants) m

  -- The pool with each entry as it is at this time.
  abbrev pub view : SharedPool T → Pool T
  view p = record {
    clients = view_map p.instants p.clients;
    capacity = p.capacity;
    idle_timeout = p.idle_timeout;
    cleanup_at = p.cleanup_at;
  }

  view-lookup :
      (instants : ℕ → ℕ) (k : Text) (m : TextMap (Handle T))
      → lookup k (view_map instants m) ≡ Option.map (read_entry instants) (lookup k m)
  unfolding lookup
  view-lookup instants k [] = refl
  view-lookup instants k ((j, h) ∷ m) = elim (Bool-cases (text_eq j k)) [
    | inl same ↦ rw same refl
    | inr other ↦ rw other (view-lookup instants k m)
  ]

  view-retain :
      (instants : ℕ → ℕ) (keep : Text → Entry T → Bool) (m : TextMap (Handle T))
      → view_map instants (retain (λ k h. keep k (read_entry instants h)) m)
        ≡ retain keep (view_map instants m)
  unfolding retain
  view-retain instants keep [] = refl
  view-retain instants keep ((k, h) ∷ m) = elim (Bool-cases (keep k (read_entry instants h))) [
    | inl kept ↦ rw kept (ap (◌∷◌ (k, read_entry instants h)) (view-retain instants keep m))
    | inr dropped ↦ rw dropped (view-retain instants keep m)
  ]

  view-insert :
      (instants : ℕ → ℕ) (k : Text) (h : Handle T) (m : TextMap (Handle T))
      → view_map instants (insert k h m) ≡ insert k (read_entry instants h) (view_map instants m)
  unfolding insert
  view-insert instants k h [] = refl
  view-insert instants k h ((j, e) ∷ m) = elim (Bool-cases (text_eq j k)) [
    | inl same ↦ rw same refl
    | inr other ↦ rw other (ap (◌∷◌ (j, read_entry instants e)) (view-insert instants k h m))
  ]

  -- A write to a cell that no entry has is not seen.
  view-Avoids :
      (cell now : ℕ) (instants : ℕ → ℕ) (m : TextMap (Handle T))
      → All (Holds (Avoids cell)) m
      → view_map (write cell now instants) m ≡ view_map instants m
  view-Avoids cell now instants [] h = refl
  view-Avoids cell now instants ((k, e) ∷ m) (h, hs) =
      rw (write_other cell now e.actived_at instants h)
        (ap (◌∷◌ (k, read_entry instants e)) (view-Avoids cell now instants m hs))

  written_here :
      (j : Text) (h : Handle T) (now : ℕ) (instants : ℕ → ℕ) (m : TextMap (Handle T))
      → All (Holds (Avoids h.actived_at)) m
      → view_map (write h.actived_at now instants) ((j, h) ∷ m)
        ≡ (j, set_actived_at now (read_entry instants h)) ∷ view_map instants m
  written_here j h now instants m alone = rw (write_self h.actived_at now instants) (
      ap (◌∷◌ (j, set_actived_at now (read_entry instants h)))
        (view-Avoids h.actived_at now instants m alone))

  -- A write to the cell of an entry is an overwrite of that entry.
  view_write :
      (k : Text) (h : Handle T) (now : ℕ) (instants : ℕ → ℕ) (m : TextMap (Handle T))
      → lookup k m ≡ some h
      → Apart m
      → view_map (write h.actived_at now instants) m
        ≡ insert k (set_actived_at now (read_entry instants h)) (view_map instants m)
  unfolding lookup insert
  view_write k h now instants [] e apart = cc
  view_write k h now instants ((j, f) ∷ m) e (alone, apart) = elim (Bool-cases (text_eq j k)) [
    | inl same ↦
        let found : some f ≡ some h = rw same at e in
        let entry_same : f ≡ h = cc in
        rw same (
          subst
            (λ g.
              view_map (write g.actived_at now instants) ((j, f) ∷ m)
              ≡ (j, set_actived_at now (read_entry instants g)) ∷ view_map instants m)
            entry_same (written_here j f now instants m alone))
    | inr other ↦
        let later : lookup k m ≡ some h = rw other at e in
        let apart_from = lookup-Holds (Avoids f.actived_at) k h m alone later in
        rw (other, write_other h.actived_at now f.actived_at instants (λ q. apart_from (sym q)))
          (ap (◌∷◌ (j, read_entry instants f)) (view_write k h now instants m later apart))
  ]

  pub cleanup-view :
      (p : SharedPool T) (now : ℕ) (reads : Text → ℕ)
      → view (cleanup_shared p now reads) ≡ cleanup_idle_entries (view p) now reads
  unfolding cleanup_shared cleanup_idle_entries
  cleanup-view p now reads =
      let count = length-map (view_item p.instants) p.clients in
      elim (Bool-cases (ltb (now - p.cleanup_at) (p.idle_timeout / 2))) [
        | inl hot ↦ rw hot refl
        | inr due ↦
            rw (due, count)
              (ap
                (λ m. record {
                  clients = m;
                  capacity = p.capacity;
                  idle_timeout = p.idle_timeout;
                  cleanup_at = now;
                })
                (view-retain p.instants _ p.clients))
      ]

  abbrev pub view_found : Option (Handle T) × SharedPool T → Option (Entry T) × Pool T
  view_found (o, p) = (Option.map (read_entry p.instants) o, view p)

  -- An entry with its instant, and the pool with its entries.
  abbrev holding :
      {B : Type ℓ} → (Entry T → B) → SharedPool T → Handle T → ℕ → TextMap (Entry T) → B × Pool T
  holding wrap p h at m =
      (wrap (record { client = h.client; actived_at = at }), record (view p) { clients = m })

  pub reuse-view :
      (p : SharedPool T) (key : Text) (now : ℕ)
      → IsSeparate p
      → view_found (reuse_shared p key now) ≡ reuse (view p) key now
  unfolding reuse_shared reuse
  reuse-view p key now v = elim (Option-cases (lookup key p.clients)) [
    | inl missing ↦
        let also : lookup key (view p).clients ≡ none =
          view-lookup p.instants key p.clients ∙ ap (Option.map (read_entry p.instants)) missing in
        rw (missing, reuse_shared, also, reuse) refl
    | inr (h, found) ↦
        let also : lookup key (view p).clients ≡ some (read_entry p.instants h) =
          view-lookup p.instants key p.clients ∙ ap (Option.map (read_entry p.instants)) found in
        rw (found, reuse_shared, also, reuse)
          (ap₂ (holding some p h) (write_self h.actived_at now p.instants)
            (view_write key h now p.instants p.clients found v.apart))
  ]

  abbrev pub view_inserted : Handle T × SharedPool T → Entry T × Pool T
  view_inserted (h, p) = (read_entry p.instants h, view p)

  pub or_insert-view :
      (p : SharedPool T) (key : Text) (client : T) (now : ℕ)
      → IsSeparate p
      → view_inserted (or_insert_shared p key client now) ≡ or_insert (view p) key client now
  unfolding or_insert_shared or_insert
  or_insert-view p key client now v = elim (Option-cases (lookup key p.clients)) [
    | inl missing ↦
        let also : lookup key (view p).clients ≡ none =
          view-lookup p.instants key p.clients ∙ ap (Option.map (read_entry p.instants)) missing in
        let h : Handle T = record { client = client; actived_at = p.made } in
        let once = write p.made now p.instants in
        let apart = new-Avoids p.made p.clients v.below in
        rw (missing, place, also)
          (ap₂ (holding (λ e. e) p h) (write_self p.made now once) (
            view-insert (write p.made now once) key h p.clients
            ∙ ap₂ (λ at m. insert key (record { client = client; actived_at = at }) m)
                (write_self p.made now once)
                (view-Avoids p.made now once p.clients apart
                  ∙ view-Avoids p.made now p.instants p.clients apart)))
    | inr (h, found) ↦
        let also : lookup key (view p).clients ≡ some (read_entry p.instants h) =
          view-lookup p.instants key p.clients ∙ ap (Option.map (read_entry p.instants)) found in
        let once = write p.made now p.instants in
        rw (found, place, also)
          (ap₂ (holding (λ e. e) p h) (write_self h.actived_at now once) (
            view_write key h now once p.clients found v.apart
            ∙ ap (insert key (record { client = h.client; actived_at = now })) (
                view-Avoids p.made now p.instants p.clients (new-Avoids p.made p.clients v.below))))
  ]
