-- ===== src/Exchange/Book/Place.antt =====
-- `limit_order` keeps the invariant of the tables.
use gxmis_plugin.Common.{
  ℕ, ◌<◌, ◌^◌, ◌≡◌, ◌≢◌, none, Result-cases, Bytes, Bool-cases, ok, arith, inl, inr, subst, ◌∙◌,
}
use gxmis_plugin.Common.Int.{ℤ, pos, ◌<ℤ◌, eqb_ℤ, pos_part, eq_of_parts}
use gxmis_plugin.Eosio.{Chain, Context}
use gxmis_plugin.Eosio.Every.{Every-emplace}
use gxmis_plugin.Exchange.{State, Order}
use gxmis_plugin.Exchange.Orders.{insert_item, add_commodity_type, limit_order}
use gxmis_plugin.Exchange.Book.{IsLive, Buys, Sells, IsBook}

module _ (c : Chain) where
  -- What `insert_item` builds.
  pub record IsNew (ctx : Context) (s : State c) (consigner : ℕ) (amount : ℤ) (oper : ℤ)
      (o : Order c) : Type 0 where
    pub fresh_buyer : oper ≡ pos 1 → c.orders.get s.buyer o.id ≡ none
    pub fresh_seller : oper ≢ pos 1 → c.orders.get s.seller o.id ≡ none
    pub by : o.consigner ≡ consigner
    pub amount_lem : o.amount ≡ amount
    pub nothing_done : o.amount_done ≡ pos 0
    pub at_now : o.consign_time ≡ ctx.now
    pub oper_lem : o.oper ≡ oper
    pub waiting : o.stat ≡ 1

  module _ (ctx : Context) (s : State c) (consigner : ℕ) (commodity_type commodity : Bytes)
      (amount : ℤ) (price : c.assets.Asset) (oper : ℤ) where
    pub insert_item-IsNew :
        (o : Order c)
        → insert_item c ctx s consigner commodity_type commodity amount price oper ≡ ok o
        → IsNew ctx s consigner amount oper o
    unfolding insert_item
    insert_item-IsNew o h = record {
      fresh_buyer = λ e. ground (arith, c.orders.available_free s.buyer o.id);
      fresh_seller =
          λ e. ground (arith, c.orders.available_free s.seller o.id, eq_of_parts oper (pos 1));
      by = ground arith;
      amount_lem = ground arith;
      nothing_done = ground arith;
      at_now = ground arith;
      oper_lem = ground arith;
      waiting = ground arith;
    }

  IsLive-of_new :
      (ctx : Context) (s : State c) (consigner : ℕ) (amount oper : ℤ) (o : Order c)
      → pos 0 <ℤ amount
      → pos_part amount < 2 ^ 63
      → IsNew ctx s consigner amount oper o
      → IsLive c o
  IsLive-of_new ctx s consigner amount oper o positive fits n = ground arith

  module _ (s : State c) (inv : IsBook c s) where
    add_buyer :
        (types : c.commodity_types.Table) (o : Order c)
        → c.orders.get s.buyer o.id ≡ none
        → IsLive c o
        → Buys c o
        → IsBook c (record s { commodity_type = types; buyer = c.orders.emplace s.buyer o })
    add_buyer types o free live buys = record {
      buyers =
          Every-emplace c.orders (λ o. IsLive c o × Buys c o) s.buyer o free (live, buys)
            inv.buyers;
      sellers = inv.sellers;
      bought = inv.bought;
      sold = inv.sold;
      cancels = inv.cancels;
      trades = inv.trades;
    }

    add_seller :
        (types : c.commodity_types.Table) (o : Order c)
        → c.orders.get s.seller o.id ≡ none
        → IsLive c o
        → Sells c o
        → IsBook c (record s { commodity_type = types; seller = c.orders.emplace s.seller o })
    add_seller types o free live sells = record {
      buyers = inv.buyers;
      sellers =
          Every-emplace c.orders (λ o. IsLive c o × Sells c o) s.seller o free (live, sells)
            inv.sellers;
      bought = inv.bought;
      sold = inv.sold;
      cancels = inv.cancels;
      trades = inv.trades;
    }

  -- Placing an order for a positive amount of int64_t keeps the invariant of the tables.
  pub limit_order-IsBook :
      (ctx : Context) (s s' : State c) (consigner : ℕ) (commodity_type commodity : Bytes)
      (amount : ℤ) (price : c.assets.Asset) (oper : ℤ)
      → pos 0 <ℤ amount
      → pos_part amount < 2 ^ 63
      → IsBook c s
      → limit_order c ctx s consigner commodity_type commodity amount price oper ≡ ok s'
      → IsBook c s'
  unfolding limit_order
  limit_order-IsBook ctx s s' consigner commodity_type commodity amount price oper positive fits inv
        h =
      elim (Result-cases (add_commodity_type c s.commodity_type commodity_type)) [
        | inr (e, p) ↦ absurd (ground arith)
        | inl (types, p) ↦
            elim (Result-cases
              (insert_item c ctx s consigner commodity_type commodity amount price oper)) [
                | inr (e, q) ↦ absurd (ground arith)
                | inl (o, q) ↦
                    let n =
                      insert_item-IsNew ctx s consigner commodity_type commodity amount price oper o
                        q in
                    let live = IsLive-of_new ctx s consigner amount oper o positive fits n in
                    elim (Bool-cases (eqb_ℤ oper (pos 1))) [
                      | inl b ↦
                          let e = eq_of_parts oper (pos 1) (ground arith) in
                          subst (IsBook c)
                            {x = record s {
                              commodity_type = types;
                              buyer = c.orders.emplace s.buyer o;
                            }}
                            (ground arith)
                            (add_buyer s inv types o (n.fresh_buyer e) live (n.oper_lem ∙ e))
                      | inr b ↦
                          let e : oper ≢ pos 1 = ground arith in
                          subst (IsBook c)
                            {x = record s {
                              commodity_type = types;
                              seller = c.orders.emplace s.seller o;
                            }}
                            (ground arith)
                            (add_seller s inv types o (n.fresh_seller e) live (ground arith))
                    ]
              ]
      ]
