-- ===== src/Selector/Ejections/Races.antt =====
-- client-request/rust/src/selector.rs: answers and failures of proxies that are recorded at the same
-- time. `on_failure` holds the entry of its endpoint, while `on_success` looks for an entry and
-- removes it in two steps.
use dragonfly_sdk.Base.{
  ℕ, ◌≡◌, refl, sym, ap, ◌∙◌, inl, inr, Bool, true, false, List, [], ◌∷◌, ◌++◌, Bool-cases, Text,
  text_eq, TextMap, lookup, remove, contains_key,
}
use dragonfly_sdk.Selector.Ejections.{Ejection, on_failure, on_success, is_ejected, within_cooldown}
use dragonfly_sdk.Selector.Ejections.Streaks.{
  Event, failed, answered, replay, replay-append, last_ejection, streak_from, is_ejected-replay,
}

-- The table, and the endpoints of the calls of `on_success` that have seen an entry and are about to
-- remove it.
pub record Recording : Type 0 where
  pub ejections : TextMap Ejection
  pub removing : List Text

abbrev none_recorded : Recording
none_recorded = record { ejections = []; removing = [] }

-- One step, with the event that it makes take effect, if any.
pub data Step (s : Recording) : List Event → Recording → Type 0 where
  fail :
      (endpoint : Text) (now : ℕ)
      → Step s
          (failed endpoint now ∷ [])
          (record s { ejections = on_failure s.ejections endpoint now })
  nothing_to_clear :
      (endpoint : Text)
      → contains_key endpoint s.ejections ≡ false
      → Step s (answered endpoint ∷ []) s
  see :
      (endpoint : Text)
      → contains_key endpoint s.ejections ≡ true
      → Step s [] (record s { removing = endpoint ∷ s.removing })
  clear :
      (before after : List Text) (endpoint : Text)
      → s.removing ≡ before ++ endpoint ∷ after
      → Step s
          (answered endpoint ∷ [])
          (record s { ejections = remove endpoint s.ejections; removing = before ++ after })

-- The states that such steps reach from an empty table, with what they told in turn.
pub data Reachable : List Event → Recording → Type 0 where
  new : Reachable [] none_recorded
  next :
      {es fs : List Event} {s t : Recording} → Reachable es s → Step s fs t → Reachable (es ++ fs) t

remove_absent : (k : Text) (m : TextMap Ejection) → contains_key k m ≡ false → remove k m ≡ m
unfolding remove lookup
remove_absent k [] h = refl
remove_absent k ((j, e) ∷ m) h = elim (Bool-cases (text_eq j k)) [
  | inl same ↦ let found : Path Bool true false = rw same at h in cc
  | inr other ↦ rw other (ap (◌∷◌ (j, e)) (remove_absent k m (rw other at h)))
]

on_success-remove :
    (k : Text) (ejections : TextMap Ejection) → on_success ejections k ≡ remove k ejections
unfolding on_success
on_success-remove k ejections = elim (Bool-cases (contains_key k ejections)) [
  | inl present ↦ rw present refl
  | inr absent ↦ rw (absent, remove_absent k ejections absent) refl
]

Step-replay :
    {fs : List Event} {s t : Recording} → Step s fs t → t.ejections ≡ replay s.ejections fs
unfolding replay
Step-replay (fail endpoint now) = refl
Step-replay {s = s} (nothing_to_clear endpoint absent) =
    sym (on_success-remove endpoint s.ejections ∙ remove_absent endpoint s.ejections absent)
Step-replay (see endpoint present) = refl
Step-replay {s = s} (clear before after endpoint e) = sym (on_success-remove endpoint s.ejections)

-- However the steps interleave, the table is the one of the events in the order in which they took
-- effect.
Reachable-replay : {es : List Event} {s : Recording} → Reachable es s → s.ejections ≡ replay [] es
unfolding replay
Reachable-replay new = refl
Reachable-replay (next {es = es} {fs = fs} {s = s} r step) =
    Step-replay step
    ∙ ap (λ ejections. replay ejections fs) (Reachable-replay r)
    ∙ sym (replay-append [] es fs)

-- However the calls that record answers and failures interleave from an empty table, at every moment
-- a proxy counts as ejected exactly when its failures since its last answer, in the order in which
-- the calls took effect, are five or more and less than the cooldown has passed since the last of
-- them whose number is a multiple of five; an answer that finds an entry takes effect at its removal.
pub is_ejected-Reachable :
    {es : List Event} {s : Recording} (k : Text) (now : ℕ)
    → Reachable es s
    → is_ejected s.ejections k now ≡ within_cooldown now (last_ejection (streak_from k [] es))
is_ejected-Reachable {es = es} k now r =
    ap (λ ejections. is_ejected ejections k now) (Reachable-replay r) ∙ is_ejected-replay k es now
