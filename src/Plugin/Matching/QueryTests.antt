-- ===== src/Plugin/Matching/QueryTests.antt =====
-- Witnesses of the theorems on the order in which the task sees the orders. An asset is its amount.
use gxmis_plugin.Common.{
  ℕ, Bytes, bytes_eq, codes, [], ◌∷◌, All, ◌≡◌, ◌≢◌, refl, ok, some, none, Option, Bool, inl, inr,
  arith, false,
}
use gxmis_plugin.Common.Int.{ℤ, pos, negsuc, leb_ℤ, ltb_ℤ, ◌+ℤ◌}
use gxmis_plugin.Plugin.Matching.{
  ConsignmentOrder, mlmto, ChainAction, candidates, do_match_limit_order,
}
use gxmis_plugin.Plugin.Matching.Chosen.{first_other}
use gxmis_plugin.Plugin.Matching.Index.{Before, buyer_query_result, seller_query_result}
use gxmis_plugin.Plugin.Matching.Priority.{candidates-Before}
use gxmis_plugin.Plugin.Matching.Blocked.{do_match_limit_order-blocked}

abbrev order_of : ℕ → Bytes → ℤ → ConsignmentOrder ℤ
order_of id account price = record {
  id = id;
  oid = codes "oid";
  consigner = account;
  commodity_type = codes "token";
  commodity = codes "EOS";
  amount = pos 5;
  amount_done = pos 0;
  consign_time = pos 0;
  price = price;
  total = price;
  oper = pos 1;
  stat = pos 1;
}

abbrev same : ℤ → ℤ
same n = n

abbrev ann_old : ConsignmentOrder ℤ
ann_old = order_of 1 (codes "ann") (pos 9)

abbrev bob_new : ConsignmentOrder ℤ
bob_new = order_of 2 (codes "bob") (pos 9)

abbrev cat_old : ConsignmentOrder ℤ
cat_old = order_of 1 (codes "cat") (pos 3)

abbrev dan_new : ConsignmentOrder ℤ
dan_new = order_of 2 (codes "dan") (pos 3)

-- Two buyers and two sellers at one price each: the newer buyer and the older seller go first.
candidates-Before_example :
    (candidates
        (buyer_query_result (ann_old ∷ (bob_new ∷ [])))
        (seller_query_result (cat_old ∷ (dan_new ∷ [])))
      ≡ ok (bob_new, cat_old))
    × All (λ o. Before same o bob_new) (ann_old ∷ (bob_new ∷ []))
    × All
        (λ o. bytes_eq bob_new.consigner o.consigner ≡ false → Before same cat_old o)
        (cat_old ∷ (dan_new ∷ []))
unfolding first_other
candidates-Before_example =
    candidates-Before same (ann_old ∷ (bob_new ∷ [])) (cat_old ∷ (dan_new ∷ [])) (ann_old ∷ [])
      (dan_new ∷ []) bob_new cat_old cat_old ((inr (refl, omega arith), tt), (tt, tt))
      ((inr (refl, omega arith), tt), (tt, tt)) refl refl refl

abbrev le_amounts : ℤ → ℤ → Option Bool
le_amounts a b = some (leb_ℤ a b)

abbrev lt_amounts : ℤ → ℤ → Option Bool
lt_amounts a b = some (ltb_ℤ a b)

abbrev eve_negative : ConsignmentOrder ℤ
eve_negative = order_of 7 (codes "eve") (negsuc 0)

abbrev some_action : ChainAction ℤ
some_action = mlmto [] [] [] []

do_match_limit_order-blocked_example :
    do_match_limit_order ℤ lt_amounts le_amounts
      (λ a b. some (a +ℤ b))
      (λ s. none)
      (λ s. none)
      (λ s. none)
      (codes "mis.exchange")
      (buyer_query_result (ann_old ∷ (eve_negative ∷ [])))
      (seller_query_result (cat_old ∷ []))
    ≢ ok (some_action ∷ [])
unfolding first_other
do_match_limit_order-blocked_example =
    do_match_limit_order-blocked ℤ lt_amounts le_amounts (λ a b. some (a +ℤ b)) (λ s. none)
      (λ s. none) (λ s. none) (codes "mis.exchange") same (ann_old ∷ (eve_negative ∷ []))
      (cat_old ∷ []) (ann_old ∷ []) [] eve_negative cat_old cat_old eve_negative 1 some_action []
      (λ x y r e. ground arith) ((inl (omega arith), tt), (tt, tt)) (tt, tt)
      ((omega arith, omega arith), ((omega arith, omega arith), tt)) (omega arith, tt) refl
      (omega arith) refl refl refl
