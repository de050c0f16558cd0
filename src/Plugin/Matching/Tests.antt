-- ===== src/Plugin/Matching/Tests.antt =====
-- Witnesses of the theorems on the task that proposes trades.
use gxmis_plugin.Common.{
  ℕ, ◌+◌, ◌*◌, ◌≤◌, codes, Bytes, [], ◌∷◌, ◌≡◌, refl, ok, some, Option, Bool, ltb, arith,
}
use gxmis_plugin.Common.Int.{pos}
use gxmis_plugin.Plugin.Matching.{ConsignmentOrder, candidates, deal_total, deal_price, total_loop}
use gxmis_plugin.Plugin.Matching.Chosen.{chosen}
use gxmis_plugin.Plugin.Matching.Candidates.{candidates_lem}
use gxmis_plugin.Plugin.Matching.Total.{Amounts, units-deal_total, deal_price_bounds, nearest_price}

abbrev order_of : Bytes → ℕ → ConsignmentOrder ℕ
order_of account price = record {
  id = 0;
  oid = codes "oid";
  consigner = account;
  commodity_type = codes "token";
  commodity = codes "EOS";
  amount = pos 5;
  amount_done = pos 0;
  consign_time = pos 0;
  price = price;
  total = price * 5;
  oper = pos 1;
  stat = pos 1;
}

abbrev lt_units : ℕ → ℕ → Option Bool
lt_units a b = some (ltb a b)

abbrev plus_units : ℕ → ℕ → Option ℕ
plus_units a b = some (a + b)

abbrev plain_amounts : Amounts ℕ lt_units plus_units
plain_amounts = record {
  units = λ n. n;
  units-lt = λ a b r e. ground arith;
  units-plus = λ a b c e. ground arith;
}

-- All sellers are the first buyer's.
candidates_lem_example :
    candidates
      (order_of (codes "ann") 9 ∷ order_of (codes "bob") 8 ∷ [])
      (order_of (codes "ann") 3 ∷ order_of (codes "ann") 7 ∷ [])
    ≡ ok (
        chosen
          (order_of (codes "ann") 9)
          (order_of (codes "bob") 8 ∷ [])
          (order_of (codes "ann") 3)
          (order_of (codes "ann") 7 ∷ []))
candidates_lem_example =
    candidates_lem (order_of (codes "ann") 9) (order_of (codes "ann") 3)
      (order_of (codes "bob") 8 ∷ []) (order_of (codes "ann") 7 ∷ [])

total_15 : deal_total plus_units 3 (pos 5) ≡ ok 15
unfolding deal_total total_loop
total_15 = refl

units-deal_total_example : 15 ≡ 3 * 5
units-deal_total_example =
    units-deal_total lt_units plus_units plain_amounts 3 5 15 (omega arith) total_15

price_7 : deal_price lt_units (some 9) 3 7 ≡ ok 7
unfolding deal_price
price_7 = refl

deal_price_bounds_example : (3 ≤ 7) × (7 ≤ 7) × (7 ≡ nearest_price (λ n. n) (some 9) 3 7)
deal_price_bounds_example =
    deal_price_bounds lt_units plus_units plain_amounts (some 9) 3 7 7 (omega arith) price_7
