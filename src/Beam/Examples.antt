-- ===== src/Beam/Examples.antt =====
-- A line of the page, an outage, and the theorems about beam_state.py at concrete data.
use daq_control_vmm_beam.Base.{
  ℕ, ◌+◌, ◌≡◌, refl, inl, inr, Bool, true, false, none, some, List, [], ◌∷◌, Text, codes, text_eq,
}
use daq_control_vmm_beam.Base.Dict.{lookup}
use daq_control_vmm_beam.Beam.Columns.{Span, runs_from, runs, tokens_from, tokens}
use daq_control_vmm_beam.Beam.Covered.{is_covered, has_ink, runs-is_covered}
use daq_control_vmm_beam.Beam.Tracker.{
  on, off, Tracker, Page, read, set_state, take_sample, expire, sample, start_tracker,
}
use daq_control_vmm_beam.Beam.Steady.{
  IsHonest, polls, retargets, rethresholds, calls, calls-IsHonest,
}
use daq_control_vmm_beam.Beam.Glitches.{take_samples, take_samples-on}

abbrev row : List Bool
row = false ∷ true ∷ true ∷ false ∷ true ∷ []

runs_of_row : runs row 60 ≡ record { first = 61; past = 63 } ∷ record { first = 64; past = 65 } ∷ []
unfolding runs runs_from
runs_of_row = refl

abbrev glyph : ℕ → Span
glyph x = record { first = x; past = x + 5 }

abbrev line : List Span
line = glyph 10 ∷ glyph 17 ∷ glyph 140 ∷ []

two_tokens : tokens line ≡ some ((glyph 10 ∷ glyph 17 ∷ []) ∷ (glyph 140 ∷ []) ∷ [])
unfolding tokens tokens_from
two_tokens = refl

abbrev t2 : Text
t2 = codes "T2"

abbrev page : ℕ → Page
page value = read ((t2, some value) ∷ [])

abbrev fresh : Tracker
fresh = start_tracker t2 10 90 none [] ((λ _. true), λ _. true) 1000

abbrev with_beam : Tracker
with_beam = record {
  target = t2;
  threshold = 10;
  unknown_after_s = 90;
  state = on;
  since = 1014;
  intensity = some 30;
  last_ok = some 1014;
  has_error = false;
  pending = [];
  history = record { event = on; of_target = t2; off_duration = none } ∷ [];
  kept = some (on, 1014, t2);
  persists = λ _. true;
  records = λ _. true;
}

beam_comes_and_goes :
    (calls
      (polls (page 30) 1007
        ∷ polls (page 30) 1014
        ∷ polls (page 0) 1021
        ∷ polls (page 0) 1028
        ∷ polls (page 30) 1035
        ∷ polls (page 30) 1042
        ∷ [])
      fresh).history
    ≡ record { event = on; of_target = t2; off_duration = some 14 }
      ∷ record { event = off; of_target = t2; off_duration = none }
      ∷ record { event = on; of_target = t2; off_duration = none }
      ∷ []
unfolding start_tracker sample take_sample expire set_state lookup text_eq
beam_comes_and_goes = refl

runs-is_covered_example : is_covered (runs row 60) (2 + 60) ≡ has_ink 0 row 2
runs-is_covered_example = runs-is_covered row 60 2

calls-IsHonest_example :
    IsHonest
      (calls (polls (page 0) 1021 ∷ retargets (codes "T4") 1030 ∷ rethresholds 5 ∷ []) with_beam)
calls-IsHonest_example =
    calls-IsHonest (polls (page 0) 1021 ∷ retargets (codes "T4") 1030 ∷ rethresholds 5 ∷ [])
      with_beam refl (λ now. refl)

take_samples-on_example :
    (take_samples ((0, 1021) ∷ (40, 1028) ∷ (3, 1035) ∷ []) with_beam).state ≡ on
take_samples-on_example =
    take_samples-on ((0, 1021) ∷ (40, 1028) ∷ (3, 1035) ∷ []) with_beam refl refl
      (inl refl, (inr refl, (inl refl, tt)))
