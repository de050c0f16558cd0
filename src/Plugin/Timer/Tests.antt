-- ===== src/Plugin/Timer/Tests.antt =====
-- Two runs of the task, of which the second ends the program.
use gxmis_plugin.Common.{ℕ, true, false, [], Option, some, ◌≡◌, refl, ◌==◌, ◌+◌, if◌then◌else◌}
use gxmis_plugin.Plugin.Timer.{
  Reach, Running, TaskException, account_query, other_exception, caught, expire, expires, further,
  here, match_limit_order, on_timer, runs, started,
}
use gxmis_plugin.Plugin.Timer.Armed.{IsCalm, Reach-IsCalm}

-- The first run ends with an exception that the task catches.
abbrev task : ℕ → ℕ × Option TaskException
task w = (w + 1, some (if w == 0 then account_query else other_exception))

abbrev ticked : Running ℕ → Running ℕ
ticked s = record s { deal_timer = expire s.deal_timer }

abbrev first_run : Running ℕ
first_run = on_timer task false [] (ticked (started task 0))

run_twice : Reach task (started task 0) (ticked first_run)
unfolding started on_timer match_limit_order expire caught
run_twice =
    further (started task 0) first_run (ticked first_run)
      (further (started task 0) (ticked (started task 0)) first_run
        (further (started task 0) (started task 0) (ticked (started task 0)) (here (started task 0))
          (expires (started task 0) refl))
        (runs (ticked (started task 0)) false [] refl refl))
      (expires first_run refl)

Reach-IsCalm_example : IsCalm task (ticked first_run)
Reach-IsCalm_example = Reach-IsCalm task 0 (ticked first_run) run_twice

-- An exception that the task does not name ends the program.
ends : (on_timer task false [] (ticked first_run)).ended ≡ true
unfolding started on_timer match_limit_order expire caught
ends = refl
