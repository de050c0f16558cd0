-- ===== src/Plugin/Matching/Index.antt =====
-- The two queries of `do_match_limit_order`, over the index `byprice` of
-- contracts/exchange/include/exchange.hpp: its fifth index, on the amount of the price.
use gxmis_plugin.Common.{ℕ, ◌-◌, ◌^◌, ◌%◌, ◌<◌, ◌≤◌, ◌≡◌, ◌⊎◌, List, [], ◌∷◌, All, take}
use gxmis_plugin.Common.Int.{ℤ, pos, negsuc}
use gxmis_plugin.Plugin.Matching.{ConsignmentOrder}
use mathlib.Core.List.{reverse}

-- An int64_t as a uint64_t.
abbrev pub unsigned64 : ℤ → ℕ
unsigned64 (pos n) = n % 2 ^ 64
unsigned64 (negsuc n) = 2 ^ 64 - 1 - n % 2 ^ 64

module _ {Asset : Type 0} (amount_of : Asset → ℤ) where
  abbrev pub by_price : ConsignmentOrder Asset → ℕ
  by_price o = unsigned64 (amount_of o.price)

  -- The order of the index: by the price, and by the primary key where the prices are equal.
  abbrev pub Before : ConsignmentOrder Asset → ConsignmentOrder Asset → Type 0
  Before a b = (by_price a < by_price b) ⊎ ((by_price a ≡ by_price b) × (a.id ≤ b.id))

  -- The rows of a table as the index lists them.
  abbrev pub IsIndex : List (ConsignmentOrder Asset) → Type 0
  IsIndex [] = Unit
  IsIndex (o ∷ os) = All (Before o) os × IsIndex os

-- `.reverse = true`, `.limit = 100`, from the rows as the index lists them.
abbrev pub buyer_query_result :
    {Asset : Type 0} → List (ConsignmentOrder Asset) → List (ConsignmentOrder Asset)
buyer_query_result index = take 100 (reverse index)

-- `.reverse = false`, `.limit = 100`
abbrev pub seller_query_result :
    {Asset : Type 0} → List (ConsignmentOrder Asset) → List (ConsignmentOrder Asset)
seller_query_result index = take 100 index
