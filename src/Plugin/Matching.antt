-- ===== src/Plugin/Matching.antt =====
-- `do_match_limit_order` of plugins/data_exchange_plugin/data_exchange_plugin.cpp: from the rows of
-- the two order tables to the actions of a trade. A `name` is its text here.
pub mod Chosen
pub mod Candidates
pub mod Total
pub mod Index
pub mod Priority
pub mod Blocked
pub mod QueryTests
pub mod Tests
use gxmis_plugin.Common.{
  ℕ, zero, suc, ◌+◌, Bytes, bytes_eq, codes, List, [], ◌∷◌, ◌++◌, length, get_elem?, Bool, true,
  false, not, ◌&&◌, ◌||◌, Option, none, some, ltb, leb, ◌==◌, if◌then◌else◌, Result, ok, err, ◌>>=◌,
  ◌>>◌, or_fail,
}
use gxmis_plugin.Plugin.AssetText.{combine_asset}
use gxmis_plugin.Common.Int.{ℤ, pos, negsuc, ltb_ℤ, eqb_ℤ, sub64}

pub data MatchingError : Type 0 where
  out_of_fuel row_out_of_range bad_asset : MatchingError

-- `consignment_order` of data_exchange_plugin.hpp.
pub record ConsignmentOrder (Asset : Type 0) : Type 0 where
  pub id : ℕ
  pub oid : Bytes
  pub consigner : Bytes
  pub commodity_type : Bytes
  pub commodity : Bytes
  pub amount : ℤ
  pub amount_done : ℤ
  pub consign_time : ℤ
  pub price : Asset
  pub total : Asset
  pub oper : ℤ
  pub stat : ℤ

-- The variables of the loop that looks for two different accounts.
pub record Cursor (Asset : Type 0) : Type 0 where
  pub buyer : ConsignmentOrder Asset
  pub seller : ConsignmentOrder Asset
  pub bi : ℕ
  pub si : ℕ

-- What the task sends to the chain.
pub data ChainAction (Asset : Type 0) : Type 0 where
  transfer :
      (permissions : List Bytes) (from to : Bytes) (quantity : Asset) (memo : Bytes)
      → ChainAction Asset
  mlmto : (permissions : List Bytes) (buyer_oid seller_oid commodity : Bytes) → ChainAction Asset

module _ {Asset : Type 0} where
  -- `row.as<consignment_order>()`: FC_REFLECT does not list the consigner.
  abbrev pub as_order : ConsignmentOrder Asset → ConsignmentOrder Asset
  as_order row = record row { consigner = [] }

  -- The row at an index.
  abbrev pub row_at :
      List (ConsignmentOrder Asset) → ℕ → Result MatchingError (ConsignmentOrder Asset)
  row_at rows i = or_fail (get_elem? rows i) row_out_of_range

  module _ (buyers sellers : List (ConsignmentOrder Asset)) where
    -- The next seller, or the next buyer once the sellers are used up.
    unfoldable pub advance : Cursor Asset → Result MatchingError (Cursor Asset)
    advance c =
        if ltb c.si (length sellers)
        then (do
          b ← row_at buyers 0
          l ← row_at sellers c.si
          ok (record c {
            buyer = record c.buyer { consigner = b.consigner };
            seller = l;
            si = suc c.si;
          }))
        else (do
          b ← row_at buyers c.bi
          l ← row_at sellers 0
          ok (record c {
            buyer = b;
            seller = record c.seller { consigner = l.consigner };
            bi = suc c.bi;
          }))

    -- The loop's condition, and the test for one account on both sides.
    unfoldable pub goes_on : Cursor Asset → Bool
    unfolding bytes_eq
    goes_on c =
        (ltb c.si (length sellers) || ltb c.bi (length buyers))
        && bytes_eq c.buyer.consigner c.seller.consigner

    unfoldable pub candidate_loop : ℕ → Cursor Asset → Result MatchingError (Cursor Asset)
    candidate_loop zero c = err out_of_fuel
    candidate_loop (suc fuel) c = elim (goes_on c) [
      | false ↦ ok c
      | true ↦ advance c >>= candidate_loop fuel
    ]

    -- Each round reads one more row, so the number of rows is enough fuel.
    unfoldable pub candidates :
        Result MatchingError (ConsignmentOrder Asset × ConsignmentOrder Asset)
    candidates = do
      b ← row_at buyers 0
      l ← row_at sellers 0
      c ←
          candidate_loop (suc (length sellers + length buyers))
            (record { buyer = as_order b; seller = as_order l; bi = 0; si = 0 })
      ok (c.buyer, c.seller)

abbrev pub active : Bytes → Bytes
active account = account ++ codes "@active"

-- The comparison and the sum of assets are parameters; they fail on two symbols.
module _ {Asset : Type 0} (lt : Asset → Asset → Option Bool) where
  -- The price of the trade, from the last price of the commodity.
  unfoldable pub deal_price : Option Asset → Asset → Asset → Result MatchingError Asset
  deal_price none low high = ok low
  deal_price (some last) low high = do
    below ← or_fail (lt last low) bad_asset
    if below
        then ok low
        else (do within ← or_fail (lt last high) bad_asset; ok (if within then last else high))

module _ {Asset : Type 0} (plus : Asset → Asset → Option Asset) where
  -- `while (--loop > 0) total += mprice;` for a positive `loop`.
  unfoldable pub total_loop : Asset → Asset → ℕ → Result MatchingError Asset
  total_loop mprice total zero = ok total
  total_loop mprice total (suc zero) = ok total
  total_loop mprice total (suc (suc loop)) = do
    total' ← or_fail (plus total mprice) bad_asset
    total_loop mprice total' (suc loop)

  unfoldable pub deal_total : Asset → ℤ → Result MatchingError Asset
  deal_total mprice (pos loop) = total_loop mprice mprice loop
  deal_total mprice (negsuc loop) = ok mprice

-- Assets, the table of prices, the token's decimals as the token contract's table has them (none
-- where a query fails), the asset that is read from a
-- text, and the contract's account are parameters.
module _ (Asset : Type 0) (lt le : Asset → Asset → Option Bool)
    (plus : Asset → Asset → Option Asset) (last_price : Bytes → Option Asset)
    (token_decimals : Bytes → Option ℕ) (asset_from_string : Bytes → Option Asset)
    (exchange_contract_acct : Bytes) where
  abbrev pub remaining : ConsignmentOrder Asset → ℤ
  remaining o = sub64 o.amount o.amount_done

  abbrev pub matched_amount : ConsignmentOrder Asset → ConsignmentOrder Asset → ℤ
  matched_amount b l = if ltb_ℤ (remaining b) (remaining l) then remaining b else remaining l

  -- `1 == stat`
  abbrev pub is_open : ConsignmentOrder Asset → Bool
  is_open o = eqb_ℤ o.stat (pos 1)

  -- The test before a trade.
  unfoldable pub may_trade :
      ConsignmentOrder Asset → ConsignmentOrder Asset → Result MatchingError Bool
  unfolding bytes_eq
  may_trade b l = do
    in_reach ← or_fail (le l.price b.price) bad_asset
    ok (in_reach && not (bytes_eq l.consigner b.consigner) && is_open l && is_open b)

  -- The seller's side of the trade: the token's transfer, if the commodity is a token, and the
  -- name of the commodity that the contract is told.
  unfoldable pub delivery :
      ConsignmentOrder Asset
      → ConsignmentOrder Asset
      → Bytes
      → Result MatchingError (List (ChainAction Asset) × Bytes)
  unfolding bytes_eq
  delivery b l memo =
      let token = if bytes_eq b.commodity (codes "*") then l.commodity else b.commodity in
      elim (token_decimals token) [
        | none ↦ ok ([], b.commodity)
        | some decimals ↦ do
          quantity ←
              or_fail (asset_from_string (combine_asset token decimals (matched_amount b l)))
                bad_asset
          ok (transfer (active l.consigner ∷ []) l.consigner b.consigner quantity memo ∷ [], token)
      ]

  -- The actions of the trade of two orders.
  unfoldable pub deal_actions :
      ConsignmentOrder Asset
      → ConsignmentOrder Asset
      → Result MatchingError (List (ChainAction Asset))
  deal_actions b l = do
    mprice ← deal_price lt (last_price l.commodity) l.price b.price
    total ← deal_total plus mprice (matched_amount b l)
    let memo = b.consigner ++ codes " buy " ++ b.commodity_type ++ codes " from " ++ l.consigner
    (deliveries, commodity_traded) ← delivery b l memo
    let permissions = active l.consigner ∷ active b.consigner ∷ active exchange_contract_acct ∷ []
    ok (
        (transfer (active b.consigner ∷ []) b.consigner l.consigner total memo ∷ deliveries)
        ++ (mlmto permissions b.oid l.oid commodity_traded ∷ []))

  -- No action where a table is empty or the two orders do not fit.
  unfoldable pub do_match_limit_order :
      List (ConsignmentOrder Asset)
      → List (ConsignmentOrder Asset)
      → Result MatchingError (List (ChainAction Asset))
  do_match_limit_order [] sellers = ok []
  do_match_limit_order (b ∷ bs) [] = ok []
  do_match_limit_order (b ∷ bs) (l ∷ ls) = do
    (buyer, seller) ← candidates (b ∷ bs) (l ∷ ls)
    fits ← may_trade buyer seller
    if fits then deal_actions buyer seller else ok []
