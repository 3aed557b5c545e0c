-- ===== src/Watch/Monitored.antt =====
-- `run_monitored` and `build_throttled_command` of watcher_common.py.
use daq_control_vmm_beam.Base.{
  ℕ, ◌+◌, ltb, leb, ◌==◌, Bool, true, false, not, ◌&&◌, Option, none, some, List, [], ◌∷◌,
  if◌then◌else◌,
}
use daq_control_vmm_beam.Base.Int.{ℤ, is_zero}

-- The limits; a time of 0 is none.
pub record Limits : Type 0 where
  pub memory_kill_pct : ℕ
  pub hard_timeout_s : ℕ
  pub stall_timeout_s : ℕ
  pub watches_path : Bool

-- A round of the loop: what `poll` says before it, and after the sleep the time, the memory in use and
-- the size of the watched path, `none` where it is absent.
pub record WatchRound : Type 0 where
  pub polled : Option ℤ
  pub now : ℕ
  pub mem_pct : ℕ
  pub path_size : Option ℕ

pub data EndReason : Type 0 where
  finished out_of_memory timed_out stalled : EndReason
  exited_with : ℤ → EndReason

abbrev pub of_exit : ℤ → EndReason
of_exit rc = if is_zero rc then finished else exited_with rc

abbrev pub same_size : Option ℕ → Option ℕ → Bool
same_size none none = true
same_size none (some _) = false
same_size (some _) none = false
same_size (some m) (some n) = m == n

abbrev pub exceeds : ℕ → ℕ → ℕ → Bool
exceeds limit since now = ltb 0 limit && ltb (since + limit) now

-- The size that is remembered and the time at which it was first seen.
pub record Growth : Type 0 where
  pub last_size : Option ℕ
  pub last_growth : ℕ

-- `none` where the size is not frozen for too long.
unfoldable pub watch_growth : Limits → WatchRound → Growth → Option Growth
watch_growth l r g =
    if not (l.watches_path && ltb 0 l.stall_timeout_s)
    then some g
    else if not (same_size r.path_size g.last_size)
    then some (record { last_size = r.path_size; last_growth = r.now })
    else if exceeds l.stall_timeout_s g.last_growth r.now
    then none
    else some g

-- What a round in which the child lives decides: an end, or the growth to go on with.
pub data Checked : Type 0 where
  ends : EndReason → Checked
  goes_on : Growth → Checked

abbrev pub of_growth : Option Growth → Checked
of_growth none = ends stalled
of_growth (some g) = goes_on g

unfoldable pub check_round : Limits → ℕ → WatchRound → Growth → Checked
check_round l t_start r g =
    if leb l.memory_kill_pct r.mem_pct
    then ends out_of_memory
    else if exceeds l.hard_timeout_s t_start r.now
    then ends timed_out
    else of_growth (watch_growth l r g)

abbrev pub after_step : Checked → (Growth → Option EndReason) → Option EndReason
after_step (ends reason) rest = some reason
after_step (goes_on g) rest = rest g

-- The loop over the rounds; `none` where they are used up with the child alive.
abbrev pub after_poll : Option ℤ → Option EndReason → Option EndReason
after_poll (some rc) rest = some (of_exit rc)
after_poll none rest = rest

unfoldable pub monitor : Limits → ℕ → List WatchRound → Growth → Option EndReason
monitor l t_start [] g = none
monitor l t_start (r ∷ rs) g =
    after_poll r.polled (after_step (check_round l t_start r g) (monitor l t_start rs))

-- `run_monitored`, from the start of the child on.
unfoldable pub run_monitored : Limits → ℕ → List WatchRound → Option EndReason
run_monitored l t_start rs =
    monitor l t_start rs (record { last_size = none; last_growth = t_start })
