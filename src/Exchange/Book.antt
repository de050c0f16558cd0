-- ===== src/Exchange/Book.antt =====
-- The invariant of the contract's tables. The modules below prove that the actions keep it.
pub mod Place
pub mod Placed
pub mod Cancel
pub mod Trade
use gxmis_plugin.Common.{
  ℕ, ◌≤◌, ◌<◌, ◌^◌, ◌≡◌, ◌≢◌, ◌⊎◌, refl, true, false, none, some, Option, Option-cases,
  Result-cases, Bytes, Bool-cases, ok, err, arith, inl, inr, ◌==◌, if◌then◌else◌,
}
use gxmis_plugin.Common.Int.{ℤ, pos, ◌≤ℤ◌, ◌<ℤ◌, eqb_ℤ, pos_part}
use gxmis_plugin.Eosio.{Chain, Context}
use gxmis_plugin.Eosio.Rows.{MatchedOrder}
use gxmis_plugin.Eosio.Every.{Every, Every-emplace, Every-modify, Every-erase}
use gxmis_plugin.Exchange.{State, Order}
use gxmis_plugin.Exchange.Match.Amounts.{IsUnfilled}
use gxmis_plugin.Exchange.Orders.{
  insert_item, add_commodity_type, limit_order, cancel_at, cancelled, cancel_limit_order,
}

module _ (c : Chain) where
  -- An order that waits in the table of buyers or of sellers.
  pub record IsLive (o : Order c) : Type 0 where
    pub waiting : o.stat ≡ 1
    pub unfilled : IsUnfilled c o

  -- An order that has been traded in full.
  pub record IsDone (o : Order c) : Type 0 where
    pub done : o.stat ≡ 3
    pub full : o.amount_done ≡ o.amount

  -- An order that was cancelled before it was traded in full.
  pub record IsCancelled (o : Order c) : Type 0 where
    pub cancelled : o.stat ≡ 0
    pub unfilled : IsUnfilled c o

  abbrev pub Buys : Order c → Type 0
  Buys o = o.oper ≡ pos 1

  abbrev pub Sells : Order c → Type 0
  Sells o = o.oper ≢ pos 1

  -- A trade of something, between two accounts.
  pub record IsTrade (t : MatchedOrder c.assets.Asset) : Type 0 where
    pub positive : pos 0 <ℤ t.amount
    pub two_accounts : t.buyer ≢ t.seller

  abbrev pub EveryOrder : (Order c → Type 0) → c.orders.Table → Type 0
  EveryOrder P = Every c.orders P

  pub record IsBook (s : State c) : Type 0 where
    pub buyers : EveryOrder (λ o. IsLive o × Buys o) s.buyer
    pub sellers : EveryOrder (λ o. IsLive o × Sells o) s.seller
    pub bought : EveryOrder (λ o. IsDone o × Buys o) s.buyer_order
    pub sold : EveryOrder (λ o. IsDone o × Sells o) s.seller_order
    pub cancels : EveryOrder IsCancelled s.cancel_order
    pub trades : Every c.trades IsTrade s.matched_order
