-- ===== src/Plugin/Task/Found.antt =====
-- The deal that the task finds: the accounts whose wallets it opens, and the actions.
use gxmis_plugin.Common.{
  ℕ, Bool, Bytes, List, [], ◌∷◌, Option, none, some, Result, Result-cases, ok, ◌>>=◌, ◌≡◌, refl,
  arith, if◌then◌else◌, inl, inr,
}
use gxmis_plugin.Plugin.Matching.{
  ConsignmentOrder, ChainAction, MatchingError, candidates, may_trade, deal_actions,
  do_match_limit_order,
}

pub record Deal (Asset : Type 0) : Type 0 where
  pub accounts : List Bytes
  pub actions : List (ChainAction Asset)

abbrev pub actions_of : {Asset : Type 0} → Option (Deal Asset) → List (ChainAction Asset)
actions_of none = []
actions_of (some deal) = deal.actions

module _ (Asset : Type 0) (lt le : Asset → Asset → Option Bool)
    (plus : Asset → Asset → Option Asset) (last_price : Bytes → Option Asset)
    (token_decimals : Bytes → Option ℕ) (asset_from_string : Bytes → Option Asset)
    (exchange_contract_acct : Bytes) where
  unfoldable pub deal_of :
      ConsignmentOrder Asset → ConsignmentOrder Asset → Result MatchingError (Option (Deal Asset))
  deal_of buyer seller = do
    fits ←
        may_trade Asset lt le plus last_price token_decimals asset_from_string
          exchange_contract_acct buyer seller
    if fits
        then (do
          actions ←
              deal_actions Asset lt le plus last_price token_decimals asset_from_string
                exchange_contract_acct buyer seller
          ok (
              some (record {
                accounts = exchange_contract_acct ∷ (seller.consigner ∷ (buyer.consigner ∷ []));
                actions = actions;
              })))
        else ok none

  -- None where a table is empty or the two orders do not fit.
  unfoldable pub found_deal :
      List (ConsignmentOrder Asset)
      → List (ConsignmentOrder Asset)
      → Result MatchingError (Option (Deal Asset))
  found_deal [] sellers = ok none
  found_deal (b ∷ bs) [] = ok none
  found_deal (b ∷ bs) (l ∷ ls) = do
    (buyer, seller) ← candidates (b ∷ bs) (l ∷ ls)
    deal_of buyer seller

  deal_of-actions :
      (b l : ConsignmentOrder Asset)
      → (deal_of b l >>= λ deal. ok (actions_of deal)) ≡ (
          may_trade Asset lt le plus last_price token_decimals asset_from_string
            exchange_contract_acct b l
          >>= λ fits.
              if fits
              then deal_actions Asset lt le plus last_price token_decimals asset_from_string
                  exchange_contract_acct b l
              else ok [])
  unfolding deal_of
  deal_of-actions b l = ground arith

  -- The deal has the actions of do_match_limit_order, and fails where it fails.
  pub found_deal-actions :
      (buyers sellers : List (ConsignmentOrder Asset))
      → (found_deal buyers sellers >>= λ deal. ok (actions_of deal))
        ≡ do_match_limit_order Asset lt le plus last_price token_decimals asset_from_string
            exchange_contract_acct buyers sellers
  unfolding found_deal do_match_limit_order
  found_deal-actions [] sellers = refl
  found_deal-actions (b ∷ bs) [] = refl
  found_deal-actions (b ∷ bs) (l ∷ ls) = elim (Result-cases (candidates (b ∷ bs) (l ∷ ls))) [
    | inl ((buyer, seller), e) ↦ rw (e) (deal_of-actions buyer seller)
    | inr (bad, e) ↦ rw (e) refl
  ]
