-- ===== src/Common/Table.antt =====
-- A law of small numbers, checked by evaluation.
use gxmis_plugin.Common.{ℕ, zero, suc, ◌<◌, ◌≡◌, Bool, true, ◌&&◌, arith}

-- The test holds of every number below the bound.
unfoldable pub holds_upto : (ℕ → Bool) → ℕ → Bool
holds_upto test zero = true
holds_upto test (suc bound) = holds_upto test bound && test bound

pub by_table :
    (test : ℕ → Bool) (bound k : ℕ) → k < bound → holds_upto test bound ≡ true → test k ≡ true
unfolding holds_upto
by_table test zero k small table = absurd (omega arith)
by_table test (suc bound) k small table = ground (arith, by_table test bound k)
