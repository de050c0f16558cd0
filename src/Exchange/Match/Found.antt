-- ===== src/Exchange/Match/Found.antt =====
-- The lookups and the checks of `match_limit_order`: what a success says, and what each failure is.
use gxmis_plugin.Common.{ℕ, ◌≡◌, ◌≢◌, ◌⊎◌, true, some, Bytes, bytes_eq_iff, ok, arith}
use gxmis_plugin.Common.Int.{pos}
use gxmis_plugin.Eosio.{Chain}
use gxmis_plugin.Exchange.{State, Order}
use gxmis_plugin.Exchange.Match.{find_orders, check_orders, commodity_any}

-- When two orders may be traded with one another.
pub record Tradable (c : Chain) (b l : Order c) : Type 0 where
  pub buys : b.oper ≡ pos 1
  pub sells : l.oper ≡ pos 0
  pub two_accounts : b.consigner ≢ l.consigner
  pub buyer_open : (b.stat ≢ 0) × (b.stat ≢ 3)
  pub seller_open : (l.stat ≢ 0) × (l.stat ≢ 3)
  pub in_reach : c.assets.le l.price b.price ≡ some true
  pub one_type : l.commodity_type ≡ b.commodity_type
  pub one_commodity :
      (l.commodity ≡ commodity_any) ⊎ (b.commodity ≡ commodity_any) ⊎ (l.commodity ≡ b.commodity)

module _ (c : Chain) where
  pub Tradable-of_check : (b l : Order c) → check_orders c b l ≡ ok tt → Tradable c b l
  unfolding check_orders
  Tradable-of_check b l h = ground (
    arith,
    bytes_eq_iff l.commodity_type b.commodity_type,
    bytes_eq_iff l.commodity commodity_any,
    bytes_eq_iff b.commodity commodity_any,
    bytes_eq_iff l.commodity b.commodity,
  )

  pub check-of_Tradable : (b l : Order c) → Tradable c b l → check_orders c b l ≡ ok tt
  unfolding check_orders
  check-of_Tradable b l h = ground (
    arith,
    bytes_eq_iff l.commodity_type b.commodity_type,
    bytes_eq_iff l.commodity commodity_any,
    bytes_eq_iff b.commodity commodity_any,
    bytes_eq_iff l.commodity b.commodity,
  )

  module _ (s : State c) (buyer_oid seller_oid : Bytes) where
    -- The orders that the lookups find stand at the iterators, and have the numbers asked for.
    pub find_orders_found :
        (kb : ℕ) (b : Order c) (kl : ℕ) (l : Order c)
        → find_orders c s buyer_oid seller_oid ≡ ok (kb, b, kl, l)
        → (c.orders.get s.buyer kb ≡ some b)
          × (b.oid ≡ buyer_oid)
          × (c.orders.get s.seller kl ≡ some l)
          × (l.oid ≡ seller_oid)
    unfolding find_orders
    find_orders_found kb b kl l h = ground (
      arith,
      c.orders.find_by_sound (λ r. r.oid) s.buyer buyer_oid kb,
      c.orders.find_by_sound (λ r. r.oid) s.seller seller_oid kl,
    )
