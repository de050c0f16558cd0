-- ===== src/Exchange/Match/Progress.antt =====
-- When `match_limit_order` goes through, and how it ends when an order is missing.
use gxmis_plugin.Common.{
  ℕ, ◌≡◌, ◌⊎◌, Bool, true, false, Option, none, some, Bytes, codes, err, arith, inl, inr, refl,
  Option-cases, is_ok, value_of_ok, ◌∙◌,
}
use gxmis_plugin.Common.Int.{ℤ, leb_ℤ}
use gxmis_plugin.Eosio.{Chain, Context}
use gxmis_plugin.Exchange.{State, Order, end_dereferenced}
use gxmis_plugin.Exchange.Match.{
  find_orders, next_price, update_price, add_trade, archive, settle, match_limit_order,
  matched_amount, remaining, fill,
}
use gxmis_plugin.Exchange.Match.Found.{Tradable, check-of_Tradable}
use gxmis_plugin.Exchange.Match.Price.{LePrice, le_symbol}
use gxmis_plugin.Exchange.Match.Settle.{fill_key}

module _ (c : Chain) where
  open c use {orders, prices, trades}

  -- There is a key for one more row.
  abbrev pub HasRoom : Option ℕ → Type 0
  HasRoom o = (id : ℕ) × (o ≡ some id)

  -- The last price of the commodity, if it has one, is in the currency of the seller's price.
  abbrev pub IsComparable : prices.Table → Bytes → Order c → Type 0
  IsComparable t commodity l =
      (k : ℕ) (r : _)
      → prices.get t k ≡ some r
      → c.sha256 r.commodity_name ≡ c.sha256 commodity
      → c.assets.symbol r.price ≡ c.assets.symbol l.price

  settle_ok :
      (used_up : Bool) (m : ℤ) (table done : orders.Table) (k : ℕ) (o : Order c)
      → orders.get table k ≡ some o
      → HasRoom (orders.available_primary_key done)
      → is_ok (settle c used_up m table done k) ≡ true
  unfolding settle archive
  settle_ok true m table done k o found (id, room) = ground (
    arith,
    orders.get-modify table k (fill c m) o k found (fill_key c m table done table done k o found),
  )
  settle_ok false m table done k o found room = refl

  next_price_ok :
      (last low high : c.assets.Asset)
      → c.assets.symbol last ≡ c.assets.symbol low
      → LePrice c low high
      → is_ok (next_price c last low high) ≡ true
  unfolding next_price
  next_price_ok last low high e h = ground (
    arith,
    c.assets.le_same last low e,
    c.assets.le_same last high (e ∙ le_symbol c.assets low high true h),
  )

  update_price_ok :
      (t : prices.Table) (commodity : Bytes) (b l : Order c)
      → LePrice c l.price b.price
      → HasRoom (prices.available_primary_key t)
      → IsComparable t commodity l
      → is_ok (update_price c t commodity b l) ≡ true
  unfolding update_price
  update_price_ok t commodity b l h (id, room) same =
      elim (Option-cases (prices.find_by (λ r. c.sha256 r.commodity_name) t (c.sha256 commodity))) [
        | inl miss ↦ ground arith
        | inr (k, hit) ↦
            let (mp, found, named) =
              prices.find_by_sound (λ r. c.sha256 r.commodity_name) t (c.sha256 commodity) k hit in
            let (q, eq) =
              value_of_ok (next_price c mp.price l.price b.price)
                (next_price_ok mp.price l.price b.price (same k mp found named) h) in
            ground (
              arith,
              prices.get-modify t k (λ r. record r { price = q }) mp k found
                  (prices.get_key t k mp found),
            )
      ]

  -- If the exchange and both owners signed, the lookups find two orders that may be traded, the
  -- commodity's last price is in their currency and each table has a free key, the match succeeds.
  pub match_limit_order_ok :
      (ctx : Context) (s : State c) (buyer_oid seller_oid commodity : Bytes) (kb : ℕ) (b : Order c)
      (kl : ℕ) (l : Order c)
      → ctx.has_auth (c.name_of (codes "mis.exchange")) ≡ true
      → orders.find_by (λ r. r.oid) s.buyer buyer_oid ≡ some kb
      → orders.get s.buyer kb ≡ some b
      → orders.find_by (λ r. r.oid) s.seller seller_oid ≡ some kl
      → orders.get s.seller kl ≡ some l
      → Tradable c b l
      → ctx.has_auth b.consigner ≡ true
      → ctx.has_auth l.consigner ≡ true
      → IsComparable s.matched_price commodity l
      → HasRoom (prices.available_primary_key s.matched_price)
      → HasRoom (trades.available_primary_key s.matched_order)
      → HasRoom (orders.available_primary_key s.buyer_order)
      → HasRoom (orders.available_primary_key s.seller_order)
      → is_ok (match_limit_order c ctx s buyer_oid seller_oid commodity) ≡ true
  unfolding match_limit_order find_orders add_trade
  match_limit_order_ok ctx s buyer_oid seller_oid commodity kb b kl l a fb gb fl gl t sb sl
        comparable room_p (id, room_t) room_b room_s =
      let ((ps, price), ep) =
        value_of_ok (update_price c s.matched_price commodity b l)
          (update_price_ok s.matched_price commodity b l t.in_reach room_p comparable) in
      let (xb, eb) =
        value_of_ok
          (settle c (leb_ℤ (remaining c b) (remaining c l)) (matched_amount c b l) s.buyer
            s.buyer_order kb)
          (settle_ok _ _ s.buyer s.buyer_order kb b gb room_b) in
      let (xl, el) =
        value_of_ok
          (settle c (leb_ℤ (remaining c l) (remaining c b)) (matched_amount c b l) s.seller
            s.seller_order kl)
          (settle_ok _ _ s.seller s.seller_order kl l gl room_s) in
      ground (arith, check-of_Tradable c b l t)

  -- If an order is missing, its number is read through the end of the index before the check for
  -- the missing order, so that check never fails.
  match_missing_order :
      (ctx : Context) (s : State c) (buyer_oid seller_oid commodity : Bytes)
      → ctx.has_auth (c.name_of (codes "mis.exchange")) ≡ true
      → (orders.find_by (λ r. r.oid) s.buyer buyer_oid ≡ none)
        ⊎ (orders.find_by (λ r. r.oid) s.seller seller_oid ≡ none)
      → match_limit_order c ctx s buyer_oid seller_oid commodity ≡ err end_dereferenced
  unfolding match_limit_order find_orders
  match_missing_order ctx s buyer_oid seller_oid commodity a missing = ground (arith)
