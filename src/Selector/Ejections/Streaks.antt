-- ===== src/Selector/Ejections/Streaks.antt =====
-- client-request/rust/src/selector.rs: the ejections after any history of answers, told from the
-- failures of an endpoint since it last answered.
use dragonfly_sdk.Base.{
  ℕ, zero, suc, ◌+◌, ◌-◌, ◌*◌, ◌/◌, ◌%◌, ◌≤◌, ◌<◌, ◌≡◌, refl, sym, ap, ◌∙◌, inl, inr, true, false,
  Option, none, some, List, [], ◌∷◌, ◌++◌, arith, ltb, leb, if◌then◌else◌, Bool-cases, unwrap_or,
  bind, length, get_elem?, length-append, Text, text_eq, text_eq_iff, TextMap, lookup,
  lookup-insert, lookup-remove,
}
use dragonfly_sdk.Selector.Ejections.{
  Ejection, default_ejection, count_failure, on_failure, on_success, within_cooldown, is_ejected,
}

-- What a proxy did: it refused to connect at some instant, or it answered.
pub data Event : Type 0 where
  failed : Text → ℕ → Event
  answered : Text → Event

abbrev pub record_event : TextMap Ejection → Event → TextMap Ejection
record_event ejections (failed endpoint now) = on_failure ejections endpoint now
record_event ejections (answered endpoint) = on_success ejections endpoint

unfoldable pub replay : TextMap Ejection → List Event → TextMap Ejection
replay ejections [] = ejections
replay ejections (e ∷ es) = replay (record_event ejections e) es

pub replay-append :
    (ejections : TextMap Ejection) (es fs : List Event)
    → replay ejections (es ++ fs) ≡ replay (replay ejections es) fs
unfolding replay
replay-append ejections [] fs = refl
replay-append ejections (e ∷ es) fs = replay-append (record_event ejections e) es fs

-- The instants of an endpoint's failures since it last answered, oldest first.
abbrev pub extend_streak : Text → List ℕ → Event → List ℕ
extend_streak k ts (failed endpoint now) = if text_eq endpoint k then ts ++ now ∷ [] else ts
extend_streak k ts (answered endpoint) = if text_eq endpoint k then [] else ts

unfoldable pub streak_from : Text → List ℕ → List Event → List ℕ
streak_from k ts [] = ts
streak_from k ts (e ∷ es) = streak_from k (extend_streak k ts e) es

-- Every fifth failure of the streak ejects: the last one that did.
abbrev pub last_ejection : List ℕ → Option ℕ
last_ejection ts = if ltb (length ts) 5 then none else get_elem? ts (5 * (length ts / 5) - 1)

state_of : List ℕ → Ejection
state_of ts = record { failed_count = length ts % 5; ejected_at = last_ejection ts }

entry_of : List ℕ → Option Ejection
unfolding state_of
entry_of [] = none
entry_of (t ∷ ts) = some (state_of (t ∷ ts))

unwrap-entry_of : (ts : List ℕ) → unwrap_or default_ejection (entry_of ts) ≡ state_of ts
unfolding entry_of
unwrap-entry_of [] = refl
unwrap-entry_of (t ∷ ts) = refl

entry_of-append : (ts : List ℕ) (t : ℕ) → entry_of (ts ++ t ∷ []) ≡ some (state_of (ts ++ t ∷ []))
unfolding entry_of
entry_of-append [] t = refl
entry_of-append (x ∷ ts) t = refl

get_elem?-append_left :
    (ts : List ℕ) (t i : ℕ) → i < length ts → get_elem? (ts ++ t ∷ []) i ≡ get_elem? ts i
get_elem?-append_left [] t i h = absurd (omega arith)
get_elem?-append_left (x ∷ ts) t zero h = refl
get_elem?-append_left (x ∷ ts) t (suc i) h = get_elem?-append_left ts t i (omega arith)

get_elem?-append_last : (ts : List ℕ) (t : ℕ) → get_elem? (ts ++ t ∷ []) (length ts) ≡ some t
get_elem?-append_last [] t = refl
get_elem?-append_last (x ∷ ts) t = get_elem?-append_last ts t

last_at_fifth : (ts : List ℕ) (t : ℕ) → length ts % 5 ≡ 4 → last_ejection (ts ++ t ∷ []) ≡ some t
last_at_fifth ts t h =
    let size : length (ts ++ t ∷ []) ≡ length ts + 1 = length-append ts (t ∷ []) in
    let index : 5 * ((length ts + 1) / 5) - 1 ≡ length ts = omega arith in
    let enough : ltb (length ts + 1) 5 ≡ false = ground arith in
    rw (size, enough, index) (get_elem?-append_last ts t)

last_between :
    (ts : List ℕ) (t : ℕ) → length ts % 5 < 4 → last_ejection (ts ++ t ∷ []) ≡ last_ejection ts
last_between ts t h =
    let size : length (ts ++ t ∷ []) ≡ length ts + 1 = length-append ts (t ∷ []) in
    elim (Bool-cases (ltb (length ts) 5)) [
      | inl few ↦ let still : ltb (length ts + 1) 5 ≡ true = ground arith in rw (size, few, still)
      | inr many ↦
          let still : ltb (length ts + 1) 5 ≡ false = ground arith in
          let same : (length ts + 1) / 5 ≡ length ts / 5 = omega arith in
          let at_least : 5 ≤ length ts = ground arith in
          rw (size, many, still, same)
            (get_elem?-append_left ts t (5 * (length ts / 5) - 1) (omega arith))
    ]

-- Counting one more failure is what the longer streak says.
count_failure_lem : (ts : List ℕ) (t : ℕ) → count_failure t (state_of ts) ≡ state_of (ts ++ t ∷ [])
unfolding count_failure state_of
count_failure_lem ts t = elim (Bool-cases (leb 5 (length ts % 5 + 1))) [
  | inl fifth ↦
      let last : length ts % 5 ≡ 4 = ground arith in
      ground (arith, last_at_fifth ts t last, length-append ts (t ∷ []))
  | inr between ↦
      let early : length ts % 5 < 4 = ground arith in
      ground (arith, last_between ts t early, length-append ts (t ∷ []))
]

Tells : Text → TextMap Ejection → List ℕ → Type 0
Tells k ejections ts = lookup k ejections ≡ entry_of ts

lookup-on_success :
    (endpoint k : Text) (ejections : TextMap Ejection)
    → lookup k (on_success ejections endpoint)
      ≡ (if text_eq endpoint k then none else lookup k ejections)
unfolding on_success
lookup-on_success endpoint k ejections =
    ground (arith, lookup-remove endpoint k ejections, text_eq_iff endpoint k)

ejected_at_entry : (ts : List ℕ) → bind (entry_of ts) (λ e. e.ejected_at) ≡ last_ejection ts
unfolding entry_of
ejected_at_entry [] = refl
ejected_at_entry (t ∷ ts) = refl

event_Tells :
    (k : Text) (ejections : TextMap Ejection) (ts : List ℕ) (e : Event)
    → Tells k ejections ts
    → Tells k (record_event ejections e) (extend_streak k ts e)
unfolding Tells on_failure entry_of
event_Tells k ejections ts (failed endpoint now) h = elim (Bool-cases (text_eq endpoint k)) [
  | inl same ↦
      let here = (text_eq_iff endpoint k).0 same in
      let before : unwrap_or default_ejection (lookup endpoint ejections) ≡ state_of ts =
        ap (λ j. unwrap_or default_ejection (lookup j ejections)) here
        ∙ ap (unwrap_or default_ejection) h
        ∙ unwrap-entry_of ts in
      rw (lookup-insert, same)
        (ap some (ap (count_failure now) before ∙ count_failure_lem ts now)
          ∙ sym (entry_of-append ts now))
  | inr other ↦ rw (lookup-insert, other) h
]
event_Tells k ejections ts (answered endpoint) h = elim (Bool-cases (text_eq endpoint k)) [
  | inl same ↦ rw (lookup-on_success, same)
  | inr other ↦ rw (lookup-on_success, other) h
]

replay-Tells :
    (k : Text) (ejections : TextMap Ejection) (ts : List ℕ) (es : List Event)
    → Tells k ejections ts
    → Tells k (replay ejections es) (streak_from k ts es)
unfolding replay streak_from
replay-Tells k ejections ts [] h = h
replay-Tells k ejections ts (e ∷ es) h =
    replay-Tells k (record_event ejections e) (extend_streak k ts e) es
      (event_Tells k ejections ts e h)

-- After any history of answers from a fresh start, a proxy counts as ejected exactly when the
-- failures since its last answer are five or more and less than the cooldown has passed since the
-- last of them whose number is a multiple of five; other endpoints' answers do not matter.
pub is_ejected-replay :
    (k : Text) (es : List Event) (now : ℕ)
    → is_ejected (replay [] es) k now ≡ within_cooldown now (last_ejection (streak_from k [] es))
unfolding is_ejected Tells lookup entry_of
is_ejected-replay k es now =
    ap (λ o. within_cooldown now (bind o (λ e. e.ejected_at))) (replay-Tells k [] [] es refl)
    ∙ ap (within_cooldown now) (ejected_at_entry (streak_from k [] es))
