-- ===== src/Beam/Glitches.antt =====
-- Single low samples in the tracker of beam_state.py, and its restart.
use daq_control_vmm_beam.Base.{
  ℕ, leb, ◌≡◌, refl, ◌⊎◌, inl, inr, Bool, true, false, some, List, [], ◌∷◌, ◌++◌, Text,
  text_eq_refl, arith, last_n,
}
use daq_control_vmm_beam.Beam.Tracker.{
  on, off, unknown, Transition, Tracker, failed, debounce_n, set_state, settle, take_sample, expire,
  sample, start_tracker,
}

-- The samples kept end in `prev`; before any sample a high one is taken for granted.
abbrev EndsIn : Bool → List Bool → Type 0
EndsIn prev l = ((l ≡ []) × (prev ≡ true)) ⊎ ((l ≡ prev ∷ []) ⊎ ((a : Bool) × (l ≡ a ∷ prev ∷ [])))

abbrev pub SampleRow : Type 0
SampleRow = ℕ × ℕ

abbrev pub take_samples : List SampleRow → Tracker → Tracker
take_samples [] t = t
take_samples ((value, now) ∷ rows) t = take_samples rows (take_sample value now t)

-- No two samples in a row are below the threshold.
abbrev pub HasGlitches : ℕ → Bool → List SampleRow → Type 0
HasGlitches threshold prev [] = Unit
HasGlitches threshold prev ((value, now) ∷ rows) =
    ((prev ≡ true) ⊎ (leb threshold value ≡ true))
    × HasGlitches threshold (leb threshold value) rows

settle-on :
    (prev high : Bool) (kept : List Bool) (now : ℕ) (t : Tracker)
    → t.state ≡ on
    → EndsIn prev kept
    → (prev ≡ true) ⊎ (high ≡ true)
    → (settle (last_n debounce_n (kept ++ (high ∷ []))) now t).state ≡ on
unfolding set_state
settle-on prev high kept now t s (inl (e, p)) h = rw (e, s) (ground arith)
settle-on prev high kept now t s (inr (inl e)) h = rw (e, s) (ground arith)
settle-on prev high kept now t s (inr (inr (a, e))) h = rw (e, s) (ground arith)

take_sample-on :
    (prev : Bool) (value now : ℕ) (t : Tracker)
    → t.state ≡ on
    → EndsIn prev t.pending
    → (prev ≡ true) ⊎ (leb t.threshold value ≡ true)
    → (take_sample value now t).state ≡ on
unfolding take_sample
take_sample-on prev value now t s e h =
    let pending = last_n debounce_n (t.pending ++ (leb t.threshold value ∷ [])) in
    settle-on prev (leb t.threshold value) t.pending now
      (record t {
        intensity = some value;
        last_ok = some now;
        has_error = false;
        pending = pending;
      })
      s e h

last_two :
    (prev high : Bool) (kept : List Bool)
    → EndsIn prev kept
    → EndsIn high (last_n debounce_n (kept ++ (high ∷ []))) ⊎ (kept ≡ [])
last_two prev high kept (inl (e, p)) = inr e
last_two prev high kept (inr (inl e)) = inl (rw e (inr (inr (prev, refl))))
last_two prev high kept (inr (inr (a, e))) = inl (rw e (inr (inr (prev, refl))))

kept_ends :
    (prev high : Bool) (kept : List Bool)
    → EndsIn prev kept
    → EndsIn high (last_n debounce_n (kept ++ (high ∷ [])))
kept_ends prev high kept h = elim (last_two prev high kept h) [
  | inl k ↦ k
  | inr e ↦ rw e (inr (inl refl))
]

settle-pending :
    (l : List Bool) (now : ℕ) (t : Tracker)
    → ((settle l now t).pending ≡ t.pending) × ((settle l now t).threshold ≡ t.threshold)
unfolding set_state
settle-pending l now t = ground arith

take_sample-EndsIn :
    (prev : Bool) (value now : ℕ) (t : Tracker)
    → EndsIn prev t.pending
    → EndsIn (leb t.threshold value) (take_sample value now t).pending
      × ((take_sample value now t).threshold ≡ t.threshold)
unfolding take_sample
take_sample-EndsIn prev value now t h =
    let pending = last_n debounce_n (t.pending ++ (leb t.threshold value ∷ [])) in
    let t' = record t {
      intensity = some value;
      last_ok = some now;
      has_error = false;
      pending = pending;
    } in
    let (e, f) = settle-pending pending now t' in
    (rw e (kept_ends prev (leb t.threshold value) t.pending h), f)

take_samples-on_from :
    (prev : Bool) (rows : List SampleRow) (t : Tracker)
    → t.state ≡ on
    → EndsIn prev t.pending
    → HasGlitches t.threshold prev rows
    → (take_samples rows t).state ≡ on
take_samples-on_from prev [] t s e h = s
take_samples-on_from prev ((value, now) ∷ rows) t s e (h, more) =
    let (k, c) = take_sample-EndsIn prev value now t e in
    take_samples-on_from (leb t.threshold value) rows (take_sample value now t)
      (take_sample-on prev value now t s e h) k (rw c more)

-- While the beam is on, samples below the threshold of which no two follow each other, right after a
-- start or a change of the threshold, leave it on.
pub take_samples-on :
    (rows : List SampleRow) (t : Tracker)
    → t.state ≡ on
    → t.pending ≡ []
    → HasGlitches t.threshold true rows
    → (take_samples rows t).state ≡ on
take_samples-on rows t s e h = take_samples-on_from true rows t s (inl (e, refl)) h

-- A restart that resumes an outage forgets when it began if the first page cannot be read: the state
-- becomes unknown, from now on.
pub start_tracker-forgets :
    (target : Text) (threshold after began now : ℕ) (history : List Transition)
    (files : (ℕ → Bool) × (ℕ → Bool))
    → let t = start_tracker target threshold after (some (off, began, target)) history files now in
      let t' = sample failed now t in
      (t.state ≡ off) × (t.since ≡ began) × (t'.state ≡ unknown) × (t'.since ≡ now)
unfolding start_tracker sample expire set_state
start_tracker-forgets target threshold after began now history files =
    ground (arith, text_eq_refl target)
