-- ===== src/Keeper/Examples.antt =====
-- A keeper that gets the lock and is stopped while it holds it.
use daq_control_vmm_beam.Base.{ℕ, Bool, true, false, some, ◌≡◌, refl}
use daq_control_vmm_beam.Keeper.Steps.{
  top, spawning, ended, spawned, acquiring, locked, holding, unwanting, joining, stopped,
  signalling, Keeper, set_running, loops, leaves, spawns, publishes, gets_lock, holds, lets_go,
  stops, reads, signals, joins, begun_keeper, Reach, begins, then_step,
}
use daq_control_vmm_beam.Keeper.Released.{Reach-released}

abbrev one_child : ℕ → Bool
one_child = set_running 0 true (λ _. false)

abbrev no_child : ℕ → Bool
no_child = set_running 0 false one_child

abbrev keeper_spawning : Keeper
keeper_spawning = record begun_keeper { place = spawning }

abbrev keeper_spawned : Keeper
keeper_spawned = record begun_keeper { place = spawned 0; running = one_child; started = 1 }

abbrev keeper_holding : Keeper
keeper_holding = record keeper_spawned { place = holding 0; proc = some 0 }

abbrev keeper_unwanted : Keeper
keeper_unwanted = record keeper_holding { want = false; caller = unwanting }

abbrev keeper_left : Keeper
keeper_left = record keeper_unwanted { place = ended; caller = signalling (some 0) }

abbrev keeper_stopped : Keeper
keeper_stopped = record keeper_left { caller = stopped; running = no_child }

-- The lock is got, and held.
lock_is_held : Reach keeper_holding
lock_is_held =
    then_step (record keeper_holding { place = locked 0 }) keeper_holding
      (then_step (record keeper_holding { place = acquiring 0 }) _
        (then_step keeper_spawned _
          (then_step keeper_spawning keeper_spawned
            (then_step begun_keeper keeper_spawning begins (loops begun_keeper))
            (spawns keeper_spawning))
          (publishes keeper_spawned 0))
        (gets_lock keeper_holding 0))
      (holds keeper_holding 0)

-- `stop` reads the child, while the thread leaves its loop with the child still running.
thread_is_left : Reach keeper_left
thread_is_left =
    then_step (record keeper_left { place = top }) keeper_left
      (then_step (record keeper_left { place = holding 0 }) _
        (then_step keeper_unwanted _
          (then_step keeper_holding keeper_unwanted lock_is_held (stops keeper_holding))
          (reads keeper_unwanted))
        (lets_go keeper_left 0))
      (leaves keeper_left)

lock_is_released : Reach keeper_stopped
lock_is_released =
    then_step (record keeper_stopped { caller = joining }) keeper_stopped
      (then_step keeper_left _ thread_is_left (signals keeper_left (some 0))) (joins keeper_stopped)

Reach-released_example : keeper_stopped.running 0 ≡ false
Reach-released_example = Reach-released keeper_stopped lock_is_released refl refl 0
