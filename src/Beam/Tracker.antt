-- ===== src/Beam/Tracker.antt =====
-- The tracker of beam_state.py: the state of the beam by samples of the intensity on one target.
use daq_control_vmm_beam.Base.{
  ℕ, ◌-◌, ltb, leb, Bool, true, false, not, ◌&&◌, Option, none, some, List, [], ◌∷◌, ◌++◌,
  if◌then◌else◌, Text, text_eq, last_n,
}
use daq_control_vmm_beam.Base.Dict.{Dict, lookup}

pub data BeamState : Type 0 where
  on off unknown : BeamState

-- A row of the history: the event, the target, and for BEAM_ON after OFF the time off.
pub record Transition : Type 0 where
  pub event : BeamState
  pub of_target : Text
  pub off_duration : Option ℕ

-- Intensities are counted in the last digit that the page shows, times in seconds. `history` is the
-- file of transitions, the last one first; `kept` is config/beam_state.json. `persists` and `records` are
-- whether each of the two can be written at a time; the code passes over an error.
pub record Tracker : Type 0 where
  pub target : Text
  pub threshold : ℕ
  pub unknown_after_s : ℕ
  pub state : BeamState
  pub since : ℕ
  pub intensity : Option ℕ
  pub last_ok : Option ℕ
  pub has_error : Bool
  pub pending : List Bool
  pub history : List Transition
  pub kept : Option (BeamState × ℕ × Text)
  pub persists : ℕ → Bool
  pub records : ℕ → Bool

-- What a fetch of the page gives: an error, or the targets that were read, with `none` for a value with
-- an unknown glyph.
pub data Page : Type 0 where
  failed : Page
  read : Dict (Option ℕ) → Page

abbrev pub debounce_n : ℕ
debounce_n = 2

abbrev pub is_same : BeamState → BeamState → Bool
is_same on on = true
is_same off off = true
is_same unknown unknown = true
is_same _ _ = false

abbrev pub time_off : BeamState → Tracker → ℕ → Option ℕ
time_off on t now = if is_same t.state off then some (now - t.since) else none
time_off _ t now = none

-- `_persist_state` and `_record`
abbrev pub persist_state : BeamState → ℕ → Tracker → Option (BeamState × ℕ × Text)
persist_state new now t = if t.persists now then some (new, now, t.target) else t.kept

abbrev pub record_row : BeamState → ℕ → Tracker → List Transition
record_row new now t =
    if t.records now
    then record { event = new; of_target = t.target; off_duration = time_off new t now } ∷ t.history
    else t.history

-- `_set_state`
unfoldable pub set_state : BeamState → ℕ → Tracker → Tracker
set_state new now t = if is_same new t.state then t else record t {
  state = new;
  since = now;
  kept = persist_state new now t;
  history = record_row new now t;
}

abbrev pub of_sample : Bool → BeamState
of_sample true = on
of_sample false = off

-- The samples of which the last two agree set the state.
abbrev pub settle : List Bool → ℕ → Tracker → Tracker
settle (true ∷ true ∷ []) now t = set_state on now t
settle (false ∷ false ∷ []) now t = set_state off now t
settle _ now t = t

unfoldable pub take_sample : ℕ → ℕ → Tracker → Tracker
take_sample value now t =
    let pending = last_n debounce_n (t.pending ++ (leb t.threshold value ∷ [])) in
    settle pending now (record t {
      intensity = some value;
      last_ok = some now;
      has_error = false;
      pending = pending;
    })

-- A target that is not on the page or whose value was not read is an error.
abbrev pub take_value : Option (Option ℕ) → ℕ → Tracker → Tracker
take_value (some (some value)) now t = take_sample value now t
take_value _ now t = record t { has_error = true }

abbrev pub take_page : Page → ℕ → Tracker → Tracker
take_page failed now t = record t { has_error = true }
take_page (read targets) now t = take_value (lookup t.target targets) now t

-- No good sample for too long.
abbrev pub is_stale : Option ℕ → ℕ → ℕ → Bool
is_stale none after now = true
is_stale (some ok) after now = ltb after (now - ok)

unfoldable pub expire : ℕ → Tracker → Tracker
expire now t =
    if not (is_same t.state unknown) && is_stale t.last_ok t.unknown_after_s now
    then set_state unknown now (record t { pending = [] })
    else t

-- `_sample`
unfoldable pub sample : Page → ℕ → Tracker → Tracker
sample page now t = expire now (take_page page now t)

unfoldable pub set_target : Text → ℕ → Tracker → Tracker
set_target target now t =
    if text_eq target t.target
    then t
    else set_state unknown now (record t { target = target; pending = []; intensity = none })

unfoldable pub set_threshold : ℕ → Tracker → Tracker
set_threshold threshold t = record t { threshold = threshold; pending = [] }

-- `__init__`: the state of before is resumed if it was kept for the same target.
abbrev pub resumed : Option (BeamState × ℕ × Text) → Text → ℕ → BeamState × ℕ
resumed none target now = (unknown, now)
resumed (some (s, since, kept_for)) target now =
    if text_eq kept_for target then (s, since) else (unknown, now)

unfoldable pub start_tracker :
    Text
    → ℕ
    → ℕ
    → Option (BeamState × ℕ × Text)
    → List Transition
    → (ℕ → Bool) × (ℕ → Bool)
    → ℕ
    → Tracker
start_tracker target threshold after kept history (persists, records) now = record {
  target = target;
  threshold = threshold;
  unknown_after_s = after;
  state = (resumed kept target now).0;
  since = (resumed kept target now).1;
  intensity = none;
  last_ok = none;
  has_error = false;
  pending = [];
  history = history;
  kept = kept;
  persists = persists;
  records = records;
}
