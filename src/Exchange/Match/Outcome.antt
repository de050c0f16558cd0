-- ===== src/Exchange/Match/Outcome.antt =====
-- What a successful `match_limit_order` did, in terms of the rows of the tables.
use gxmis_plugin.Common.{
  ℕ, ◌≡◌, ◌⊎◌, refl, Bool, true, false, none, some, Bytes, codes, is_empty, ok, arith, inl, inr,
  ◌==◌, if◌then◌else◌, Option-cases,
}
use gxmis_plugin.Common.Int.{ℤ, leb_ℤ, add64, eqb_ℤ, sub64, ◌≤ℤ◌}
use gxmis_plugin.Eosio.{Chain, Context}
use gxmis_plugin.Eosio.Rows.{MatchedOrder}
use gxmis_plugin.Exchange.{State, Order}
use gxmis_plugin.Exchange.Match.{
  add_trade, fill, settle, remaining, matched_amount, match_limit_order,
}
use gxmis_plugin.Exchange.Match.Runs.{Run, Run-of_match}
use gxmis_plugin.Exchange.Match.Found.{Tradable, Tradable-of_check, find_orders_found}
use gxmis_plugin.Exchange.Match.Price.{Priced, update_price-Priced}
use gxmis_plugin.Exchange.Match.Settle.{Kept, Moved, settle-Kept, settle-Moved}

module _ (c : Chain) where
  -- The smaller of two numbers.
  abbrev pub IsSmaller : ℤ → ℤ → ℤ → Type 0
  IsSmaller m x y = (m ≤ℤ x) × (m ≤ℤ y) × ((m ≡ x) ⊎ (m ≡ y))

  -- The amount of a trade is the smaller of what is left of the two orders.
  matched-IsSmaller :
      (b l : Order c)
      → IsSmaller
          (matched_amount c b l)
          (sub64 b.amount b.amount_done)
          (sub64 l.amount l.amount_done)
  matched-IsSmaller b l = ground arith

  -- The order with an amount added to what is done, and with status 3 where that is all of it.
  abbrev pub with_done : ℤ → Order c → Order c
  with_done matched o = record o {
    amount_done = add64 o.amount_done matched;
    stat = if eqb_ℤ (add64 o.amount_done matched) o.amount then 3 else o.stat;
  }

  fill-with_done : (matched : ℤ) (o : Order c) → fill c matched o ≡ with_done matched o
  unfolding fill
  fill-with_done matched o = refl

  -- The row that a trade leaves.
  abbrev pub trade_row :
      Context
      → Bytes
      → Bytes
      → Bytes
      → Order c
      → Order c
      → c.assets.Asset
      → ℕ
      → MatchedOrder c.assets.Asset
  trade_row ctx buyer_oid seller_oid commodity b l price id = record {
    id = id;
    buyer_oid = buyer_oid;
    seller_oid = seller_oid;
    buyer = b.consigner;
    seller = l.consigner;
    commodity_type = b.commodity_type;
    commodity = if is_empty commodity then b.commodity else commodity;
    amount = matched_amount c b l;
    matched_time = ctx.now;
    price = price;
  }

  -- The side of a trade that is used up moves to the done orders, the other stays.
  abbrev pub Settled :
      Bool
      → ℤ
      → c.orders.Table
      → c.orders.Table
      → c.orders.Table
      → c.orders.Table
      → ℕ
      → Order c
      → Type 0
  Settled used_up m table done table' done' k o =
      ((used_up ≡ true) × Moved c m table done table' done' k o)
      ⊎ ((used_up ≡ false) × Kept c m table done table' done' k o)

  settle-Settled :
      (used_up : Bool) (m : ℤ) (table done table' done' : c.orders.Table) (k : ℕ) (o : Order c)
      → c.orders.get table k ≡ some o
      → settle c used_up m table done k ≡ ok (table', done')
      → Settled used_up m table done table' done' k o
  settle-Settled true m table done table' done' k o found h =
      inl (refl, settle-Moved c m table done table' done' k o found h)
  settle-Settled false m table done table' done' k o found h =
      inr (refl, settle-Kept c m table done table' done' k o found h)

  pub record Outcome (ctx : Context) (s : State c) (buyer_oid seller_oid commodity : Bytes)
      (s' : State c) : Type 0 where
    pub kb : ℕ
    pub b : Order c
    pub kl : ℕ
    pub l : Order c
    pub price : c.assets.Asset
    -- the two orders, which may be traded, and the three accounts that signed
    pub buyer_found : c.orders.get s.buyer kb ≡ some b
    pub buyer_number : b.oid ≡ buyer_oid
    pub seller_found : c.orders.get s.seller kl ≡ some l
    pub seller_number : l.oid ≡ seller_oid
    pub tradable : Tradable c b l
    pub exchange_signed : ctx.has_auth (c.name_of (codes "mis.exchange")) ≡ true
    pub buyer_signed : ctx.has_auth b.consigner ≡ true
    pub seller_signed : ctx.has_auth l.consigner ≡ true
    -- the price, its row, and the row of the trade
    pub price_key : ℕ
    pub priced : Priced c s.matched_price s'.matched_price commodity l.price b.price price price_key
    pub trade_id : ℕ
    pub trade_fresh : c.trades.get s.matched_order trade_id ≡ none
    pub trade_stored :
        (j : ℕ)
        → c.trades.get s'.matched_order j ≡ (
            if trade_id == j
            then some (trade_row ctx buyer_oid seller_oid commodity b l price trade_id)
            else c.trades.get s.matched_order j)
    -- the amount, the two sides, and the tables that stay as they were
    pub smaller :
        IsSmaller
          (matched_amount c b l)
          (sub64 b.amount b.amount_done)
          (sub64 l.amount l.amount_done)
    pub buyer_filled : fill c (matched_amount c b l) b ≡ with_done (matched_amount c b l) b
    pub seller_filled : fill c (matched_amount c b l) l ≡ with_done (matched_amount c b l) l
    pub buyer_side :
        Settled
          (leb_ℤ (remaining c b) (remaining c l))
          (matched_amount c b l)
          s.buyer
          s.buyer_order
          s'.buyer
          s'.buyer_order
          kb
          b
    pub seller_side :
        Settled
          (leb_ℤ (remaining c l) (remaining c b))
          (matched_amount c b l)
          s.seller
          s.seller_order
          s'.seller
          s'.seller_order
          kl
          l
    pub same_types : s'.commodity_type ≡ s.commodity_type
    pub same_wallets : s'.wltpwd ≡ s.wltpwd
    pub same_cancelled : s'.cancel_order ≡ s.cancel_order
    pub same_results : s'.sgx_model_result ≡ s.sgx_model_result

  module _ (ctx : Context) (s s' : State c) (buyer_oid seller_oid commodity : Bytes) where
    -- The row of the trade goes into its table under a new key.
    traded_row :
        (b l : Order c) (price : c.assets.Asset) (ts : c.trades.Table)
        → add_trade c ctx s.matched_order buyer_oid seller_oid commodity b l price ≡ ok ts
        → (id : ℕ) × (c.trades.get s.matched_order id ≡ none)
          × ((j : ℕ)
              → c.trades.get ts j ≡ (
                  if id == j
                  then some (trade_row ctx buyer_oid seller_oid commodity b l price id)
                  else c.trades.get s.matched_order j))
    unfolding add_trade
    traded_row b l price ts h =
        elim (Option-cases (c.trades.available_primary_key s.matched_order)) [
          | inl full ↦ absurd (ground arith)
          | inr (id, free) ↦
              let fresh = c.trades.available_free s.matched_order id free in
              let row = trade_row ctx buyer_oid seller_oid commodity b l price id in
              (id, fresh, λ j. ground (arith, c.trades.get-emplace s.matched_order row j fresh))
        ]

    Outcome-of_Run :
        Run c ctx s buyer_oid seller_oid commodity s'
        → Outcome ctx s buyer_oid seller_oid commodity s'
    Outcome-of_Run r =
        let (fb, nb, fl, nl) =
          find_orders_found c s buyer_oid seller_oid r.kb r.b r.kl r.l r.found in
        let t = Tradable-of_check c r.b r.l r.checked in
        let (pk, priced) =
          update_price-Priced c s.matched_price s'.matched_price commodity r.b r.l r.price
            t.in_reach r.priced in
        let (id, fresh, stored) = traded_row r.b r.l r.price s'.matched_order r.traded in
        record {
          kb = r.kb;
          b = r.b;
          kl = r.kl;
          l = r.l;
          price = r.price;
          buyer_found = fb;
          buyer_number = nb;
          seller_found = fl;
          seller_number = nl;
          tradable = t;
          exchange_signed = r.exchange_signed;
          buyer_signed = r.buyer_signed;
          seller_signed = r.seller_signed;
          price_key = pk;
          priced = priced;
          trade_id = id;
          trade_fresh = fresh;
          trade_stored = stored;
          smaller = matched-IsSmaller r.b r.l;
          buyer_filled = fill-with_done _ r.b;
          seller_filled = fill-with_done _ r.l;
          buyer_side =
              settle-Settled _ _ s.buyer s.buyer_order s'.buyer s'.buyer_order r.kb r.b fb
                r.buyer_settled;
          seller_side =
              settle-Settled _ _ s.seller s.seller_order s'.seller s'.seller_order r.kl r.l fl
                r.seller_settled;
          same_types = r.same_types;
          same_wallets = r.same_wallets;
          same_cancelled = r.same_cancelled;
          same_results = r.same_results;
        }

    -- A successful match found the two orders under the numbers given, they may be traded, and the
    -- exchange and both owners signed; the price is the last price of the commodity moved to the
    -- nearest one between the two, or the seller's without a last price, and is written to the row
    -- of the commodity; one trade of the smaller remaining amount is recorded under a new key; each
    -- order is filled by that amount, with status 3 where nothing is left of it, and the side that is used up moves to its done orders; every
    -- other row of these tables and every other table stays as it was.
    pub match_limit_order-Outcome :
        match_limit_order c ctx s buyer_oid seller_oid commodity ≡ ok s'
        → Outcome ctx s buyer_oid seller_oid commodity s'
    match_limit_order-Outcome h =
        Outcome-of_Run (Run-of_match c ctx s buyer_oid seller_oid commodity s' h)
