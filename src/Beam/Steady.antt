-- ===== src/Beam/Steady.antt =====
-- What the tracker of beam_state.py promises: glitches change nothing, a state rests on a recent sample,
-- and the history alternates.
use daq_control_vmm_beam.Base.{
  ℕ, ◌-◌, ◌≤◌, leb, ◌≡◌, refl, ◌⊎◌, inl, inr, Bool, true, false, not, ◌&&◌, Option, none, some,
  List, [], ◌∷◌, ◌++◌, Text, text_eq, arith, Bool-cases, last_n,
}
use daq_control_vmm_beam.Base.Dict.{lookup}
use daq_control_vmm_beam.Beam.Tracker.{
  BeamState, on, off, unknown, Transition, Tracker, Page, failed, read, debounce_n, is_same,
  set_state, time_off, settle, take_sample, take_value, take_page, is_stale, expire, sample,
  set_target, set_threshold,
}

-- The history alternates, its last event is the state, and no event repeats the one before it.
abbrev pub IsAlternating : BeamState → List Transition → Type 0
IsAlternating s [] = Unit
IsAlternating s (x ∷ []) = is_same x.event s ≡ true
IsAlternating s (x ∷ y ∷ xs) =
    (is_same x.event s ≡ true) × (is_same y.event x.event ≡ false) × IsAlternating y.event (y ∷ xs)

is_same_refl : (s : BeamState) → is_same s s ≡ true
is_same_refl on = refl
is_same_refl off = refl
is_same_refl unknown = refl

is_same→eq : (s t : BeamState) → is_same s t ≡ true → s ≡ t
is_same→eq s t h = ground arith

is_same_swap : (s t : BeamState) → is_same s t ≡ false → is_same t s ≡ false
is_same_swap s t h = ground arith

IsAlternating-add :
    (new s : BeamState) (x : Transition) (h : List Transition)
    → x.event ≡ new
    → is_same new s ≡ false
    → IsAlternating s h
    → IsAlternating new (x ∷ h)
IsAlternating-add new s x [] e d a = rw e (is_same_refl new)
IsAlternating-add new s x (y ∷ []) e d a =
    let k = is_same→eq y.event s a in
    (rw e (is_same_refl new), rw (e, k) (is_same_swap new s d), is_same_refl y.event)
IsAlternating-add new s x (y ∷ z ∷ h) e d (a, b, c) =
    let k = is_same→eq y.event s a in
    (rw e (is_same_refl new), rw (e, k) (is_same_swap new s d), (is_same_refl y.event, b, c))

abbrev pub IsHonest : Tracker → Type 0
IsHonest t = IsAlternating t.state t.history

-- A tracker that is honest, and whose history can be written.
abbrev Records : (ℕ → Bool) → Type 0
Records records = (now : ℕ) → records now ≡ true

abbrev IsTruthful : Tracker → Type 0
IsTruthful t = IsHonest t × Records t.records

set_state-IsTruthful :
    (new : BeamState) (now : ℕ) (t : Tracker) → IsTruthful t → IsTruthful (set_state new now t)
unfolding set_state
set_state-IsTruthful new now t (h, writes) = elim (Bool-cases (is_same new t.state)) [
  | inl e ↦ rw e (h, writes)
  | inr e ↦
      rw (e, writes now)
        (
          IsAlternating-add new t.state
              (record { event = new; of_target = t.target; off_duration = time_off new t now })
              t.history refl e h,
          writes,
        )
]

settle-IsTruthful :
    (pending : List Bool) (now : ℕ) (t : Tracker) → IsTruthful t → IsTruthful (settle pending now t)
settle-IsTruthful [] now t h = h
settle-IsTruthful (true ∷ []) now t h = h
settle-IsTruthful (false ∷ []) now t h = h
settle-IsTruthful (true ∷ true ∷ []) now t h = set_state-IsTruthful on now t h
settle-IsTruthful (true ∷ false ∷ []) now t h = h
settle-IsTruthful (false ∷ true ∷ []) now t h = h
settle-IsTruthful (false ∷ false ∷ []) now t h = set_state-IsTruthful off now t h
settle-IsTruthful (true ∷ true ∷ _ ∷ _) now t h = h
settle-IsTruthful (true ∷ false ∷ _ ∷ _) now t h = h
settle-IsTruthful (false ∷ true ∷ _ ∷ _) now t h = h
settle-IsTruthful (false ∷ false ∷ _ ∷ _) now t h = h

take_value-IsTruthful :
    (o : Option (Option ℕ)) (now : ℕ) (t : Tracker) → IsTruthful t → IsTruthful (take_value o now t)
unfolding take_sample
take_value-IsTruthful none now t h = h
take_value-IsTruthful (some none) now t h = h
take_value-IsTruthful (some (some value)) now t h =
    settle-IsTruthful (last_n debounce_n (t.pending ++ (leb t.threshold value ∷ []))) now _ h

take_page-IsTruthful :
    (p : Page) (now : ℕ) (t : Tracker) → IsTruthful t → IsTruthful (take_page p now t)
take_page-IsTruthful failed now t h = h
take_page-IsTruthful (read d) now t h = take_value-IsTruthful (lookup t.target d) now t h

expire-IsTruthful : (now : ℕ) (t : Tracker) → IsTruthful t → IsTruthful (expire now t)
unfolding expire
expire-IsTruthful now t h =
    elim (Bool-cases (not (is_same t.state unknown) && is_stale t.last_ok t.unknown_after_s now)) [
      | inl e ↦ rw e (set_state-IsTruthful unknown now (record t { pending = [] }) h)
      | inr e ↦ rw e h
    ]

-- What happens to the tracker: a poll of the page, a new target, a new threshold.
pub data Call : Type 0 where
  polls : Page → ℕ → Call
  retargets : Text → ℕ → Call
  rethresholds : ℕ → Call

abbrev pub call : Call → Tracker → Tracker
call (polls p now) t = sample p now t
call (retargets target now) t = set_target target now t
call (rethresholds v) t = set_threshold v t

abbrev pub calls : List Call → Tracker → Tracker
calls [] t = t
calls (c ∷ cs) t = calls cs (call c t)

call-IsTruthful : (c : Call) (t : Tracker) → IsTruthful t → IsTruthful (call c t)
unfolding sample set_target set_threshold
call-IsTruthful (polls p now) t h =
    expire-IsTruthful now (take_page p now t) (take_page-IsTruthful p now t h)
call-IsTruthful (retargets target now) t h = elim (Bool-cases (text_eq target t.target)) [
  | inl e ↦ rw e h
  | inr e ↦ rw e (
      set_state-IsTruthful unknown now
        (record t { target = target; pending = []; intensity = none }) h)
]
call-IsTruthful (rethresholds v) t h = h

calls-IsTruthful : (cs : List Call) (t : Tracker) → IsTruthful t → IsTruthful (calls cs t)
calls-IsTruthful [] t h = h
calls-IsTruthful (c ∷ cs) t h = calls-IsTruthful cs (call c t) (call-IsTruthful c t h)

-- From a tracker whose history alternates and ends with its state, as an empty one does, and as long as
-- rows can be written to the file of the history: whatever the page shows and the operator sets, the
-- history alternates, so that every row is a change of the state, and its last row names the state that
-- the tracker is in.
pub calls-IsHonest :
    (cs : List Call) (t : Tracker)
    → IsHonest t
    → ((now : ℕ) → t.records now ≡ true)
    → IsHonest (calls cs t)
calls-IsHonest cs t h writes = (calls-IsTruthful cs t (h, writes)).0

abbrev pub IsFresh : ℕ → Tracker → Type 0
IsFresh now t = (ok : ℕ) × (t.last_ok ≡ some ok) × (now - ok ≤ t.unknown_after_s)

set_state-state :
    (new : BeamState) (now : ℕ) (t : Tracker) → is_same (set_state new now t).state new ≡ true
unfolding set_state
set_state-state new now t = elim (Bool-cases (is_same new t.state)) [
  | inl e ↦ rw e (rw (is_same→eq new t.state e) (is_same_refl t.state))
  | inr e ↦ rw e (is_same_refl new)
]

not_stale :
    (o : Option ℕ) (after now : ℕ)
    → is_stale o after now ≡ false
    → (ok : ℕ) × (o ≡ some ok) × (now - ok ≤ after)
not_stale none after now h = ground arith
not_stale (some ok) after now h = (ok, refl, ground arith)

expire-IsFresh :
    (now : ℕ) (t : Tracker)
    → let t' = expire now t in (is_same t'.state unknown ≡ true) ⊎ IsFresh now t'
unfolding expire
expire-IsFresh now t = elim (Bool-cases (is_same t.state unknown)) [
  | inl e ↦ inl (ground (arith, e))
  | inr e ↦ elim (Bool-cases (is_stale t.last_ok t.unknown_after_s now)) [
    | inl k ↦ inl (rw (e, k) (set_state-state unknown now (record t { pending = [] })))
    | inr k ↦ inr (rw (e, k) (not_stale t.last_ok t.unknown_after_s now k))
  ]
]

-- After a poll the state is unknown, or a good sample was taken that is not older than the limit.
pub sample-IsFresh :
    (p : Page) (now : ℕ) (t : Tracker)
    → let t' = sample p now t in (is_same t'.state unknown ≡ true) ⊎ IsFresh now t'
unfolding sample
sample-IsFresh p now t = expire-IsFresh now (take_page p now t)
