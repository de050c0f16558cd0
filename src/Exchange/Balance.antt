-- ===== src/Exchange/Balance.antt =====
-- What has been bought and what has been sold, over all orders of the tables, and what has been
-- traded, over all trades.
pub mod Moves
pub mod Orders
pub mod Trade
pub mod Life
pub mod Tests
use gxmis_plugin.Common.{ℕ, ◌+◌, ◌≤◌, ◌≡◌, if◌then◌else◌}
use gxmis_plugin.Common.Int.{ℤ, pos, eqb_ℤ, pos_part}
use gxmis_plugin.Eosio.{Chain}
use gxmis_plugin.Eosio.Rows.{MatchedOrder}
use gxmis_plugin.Eosio.Total.{total}
use gxmis_plugin.Exchange.{State, Order}

module _ (c : Chain) where
  -- The amount done of an order, on its own side.
  abbrev pub bought_of : Order c → ℕ
  bought_of o = if eqb_ℤ o.oper (pos 1) then pos_part o.amount_done else 0

  abbrev pub sold_of : Order c → ℕ
  sold_of o = if eqb_ℤ o.oper (pos 1) then 0 else pos_part o.amount_done

  abbrev pub traded_of : MatchedOrder c.assets.Asset → ℕ
  traded_of t = pos_part t.amount

  -- A quantity summed over the open, done and cancelled orders with keys below `n`.
  abbrev pub over_orders : (Order c → ℕ) → State c → ℕ → ℕ
  over_orders quantity s n =
      total c.orders quantity s.buyer n
      + total c.orders quantity s.buyer_order n
      + total c.orders quantity s.seller n
      + total c.orders quantity s.seller_order n
      + total c.orders quantity s.cancel_order n

  -- Once the sums reach over all keys, as much is bought as is traded, and as much is sold.
  pub record IsBalanced (s : State c) : Type 0 where
    pub bound : ℕ
    pub bought :
        (n : ℕ) → bound ≤ n → over_orders bought_of s n ≡ total c.trades traded_of s.matched_order n
    pub sold :
        (n : ℕ) → bound ≤ n → over_orders sold_of s n ≡ total c.trades traded_of s.matched_order n
