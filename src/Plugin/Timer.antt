-- ===== src/Plugin/Timer.antt =====
-- The timer of plugins/data_exchange_plugin/data_exchange_plugin.cpp: `match_limit_order`, which
-- starts itself again before each run of `do_match_limit_order`.
pub mod Armed
pub mod Tests
use gxmis_plugin.Common.{
  ℕ, zero, suc, Bool, true, false, List, [], ◌∷◌, ◌++◌, replicate, Option, none, some,
  if◌then◌else◌, ◌≡◌,
}

-- The exceptions that `do_match_limit_order` names, and all others.
pub data TaskException : Type 0 where
  account_query unsupported_abi_version wallet_locked wallet_unlocked symbol_type : TaskException
  other_exception : TaskException

-- The handlers that wait for the timer, and those whose turn it is, each with its error code: true
-- where the wait was cancelled.
pub record Timer : Type 0 where
  pub waiting : ℕ
  pub ready : List Bool

abbrev pub new_timer : Timer
new_timer = record { waiting = 0; ready = [] }

-- `expires_from_now`, which cancels the waits that are pending, and `async_wait`.
unfoldable pub match_limit_order : Timer → Timer
match_limit_order t = record { waiting = 1; ready = t.ready ++ replicate t.waiting true }

-- The time is over.
unfoldable pub expire : Timer → Timer
expire t = record { waiting = 0; ready = t.ready ++ replicate t.waiting false }

-- Whether the `catch` clauses of `do_match_limit_order` end an exception.
unfoldable pub caught : Option TaskException → Bool
caught none = true
caught (some e) = elim e [ other_exception ↦ false | e' ↦ true ]

-- The timer, how many warnings were written, the world, and whether an exception has left the
-- handler, which ends the program.
pub record Running (World : Type 0) : Type 0 where
  pub deal_timer : Timer
  pub warnings : ℕ
  pub world : World
  pub ended : Bool

module _ {World : Type 0} (do_match_limit_order : World → World × Option TaskException) where
  -- The handler, behind the rest of those whose turn it is.
  unfoldable pub on_timer : Bool → List Bool → Running World → Running World
  on_timer ec rest s =
      let (w', exception) = do_match_limit_order s.world in
      record {
        deal_timer = match_limit_order (record (s.deal_timer) { ready = rest });
        warnings = if ec then suc s.warnings else s.warnings;
        world = w';
        ended = if caught exception then false else true;
      }

  -- The end of `plugin_initialize`
  unfoldable pub started : World → Running World
  started w = record {
    deal_timer = match_limit_order new_timer;
    warnings = 0;
    world = w;
    ended = false;
  }

  -- One step of a program that runs: the time is over, the first handler runs, or something else
  -- changes the world.
  pub data Step : Running World → Running World → Type 0 where
    expires :
        (s : Running World)
        → s.ended ≡ false
        → Step s (record s { deal_timer = expire s.deal_timer })
    runs :
        (s : Running World) (ec : Bool) (rest : List Bool)
        → s.ended ≡ false
        → s.deal_timer.ready ≡ ec ∷ rest
        → Step s (on_timer ec rest s)
    elsewhere : (s : Running World) (w : World) → s.ended ≡ false → Step s (record s { world = w })

  pub data Reach : Running World → Running World → Type 0 where
    here : (s : Running World) → Reach s s
    further : (s t u : Running World) → Reach s t → Step t u → Reach s u
