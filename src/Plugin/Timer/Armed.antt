-- ===== src/Plugin/Timer/Armed.antt =====
-- The timer never stops, and its handlers never overlap.
use gxmis_plugin.Common.{Bool, false, List, [], ◌∷◌, Option, ◌≡◌, ◌⊎◌, inl, inr, refl, arith}
use gxmis_plugin.Plugin.Timer.{
  Reach, Running, Step, TaskException, Timer, expire, expires, elsewhere, further, here,
  match_limit_order, on_timer, runs, started,
}

-- One handler waits and none is to run, or none waits and one is to run, without an error.
abbrev pub IsArmed : Timer → Type 0
IsArmed t = ((t.waiting ≡ 1) × (t.ready ≡ [])) ⊎ ((t.waiting ≡ 0) × (t.ready ≡ false ∷ []))

module _ {World : Type 0} (task : World → World × Option TaskException) where
  abbrev pub IsCalm : Running World → Type 0
  IsCalm s = IsArmed s.deal_timer × (s.warnings ≡ 0)

  started-IsCalm : (w : World) → IsCalm (started task w)
  unfolding started match_limit_order
  started-IsCalm w = (inl (refl, refl), refl)

  expire-IsArmed : (t : Timer) → IsArmed t → IsArmed (expire t)
  unfolding expire
  expire-IsArmed t (inl (one, none_ready)) = ground (arith, one, none_ready)
  expire-IsArmed t (inr (zero_waiting, one)) = ground (arith, zero_waiting, one)

  on_timer-IsCalm :
      (ec : Bool) (rest : List Bool) (s : Running World)
      → s.deal_timer.ready ≡ ec ∷ rest
      → IsCalm s
      → IsCalm (on_timer task ec rest s)
  unfolding on_timer match_limit_order
  on_timer-IsCalm ec rest s front (inl (one, none_ready), quiet) =
      absurd (ground (arith, front, none_ready))
  on_timer-IsCalm ec rest s front (inr (zero_waiting, one), quiet) =
      ground (arith, front, zero_waiting, one, quiet)

  step-IsCalm : (s t : Running World) → Step task s t → IsCalm s → IsCalm t
  step-IsCalm s t (expires s' alive) (armed, quiet) = (expire-IsArmed s'.deal_timer armed, quiet)
  step-IsCalm s t (runs s' ec rest alive front) calm = on_timer-IsCalm ec rest s' front calm
  step-IsCalm s t (elsewhere s' w alive) calm = calm

  reach-IsCalm : (s t : Running World) → Reach task s t → IsCalm s → IsCalm t
  reach-IsCalm s t (here s') calm = calm
  reach-IsCalm s t (further s' m t' run step) calm =
      step-IsCalm m t' step (reach-IsCalm s' m run calm)

  -- In every state that the program reaches from the end of `plugin_initialize`, whatever the task does
  -- and whatever happens between its runs: exactly one handler of the timer is outstanding, which waits,
  -- or whose turn it is, without an error code; and the warning of a timer that ticked too soon was
  -- never written.
  pub Reach-IsCalm : (w : World) (t : Running World) → Reach task (started task w) t → IsCalm t
  Reach-IsCalm w t run = reach-IsCalm (started task w) t run (started-IsCalm w)
