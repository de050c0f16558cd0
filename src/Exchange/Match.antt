-- ===== src/Exchange/Match.antt =====
-- `match_limit_order` of contracts/exchange/src/exchange.cpp. The code changes the two sides of a
-- trade in turn; they stand in tables of their own, so the model settles one side and then the other.
pub mod Runs
pub mod Found
pub mod Price
pub mod Settle
pub mod Amounts
pub mod Outcome
pub mod Progress
use gxmis_plugin.Common.{
  ℕ, Bool, true, false, Option, none, some, ◌&&◌, ◌||◌, not, Bytes, bytes_eq, codes, is_empty,
  Result, ok, err, ◌>>=◌, ◌>>◌, guard, or_fail, ◌==◌, if◌then◌else◌,
}
use gxmis_plugin.Common.Int.{ℤ, pos, ltb_ℤ, leb_ℤ, eqb_ℤ, add64, sub64}
use gxmis_plugin.Eosio.{Chain, Context}
use gxmis_plugin.Exchange.{
  State, Error, Order, end_dereferenced, no_more_keys, bad_asset, no_buyer, no_seller, need_buyer,
  need_seller, same_account, not_tradable, price_is_higher, different_type, different_commodity,
  require_auth, sha256_to_hex,
}

abbrev pub is_some {ℓ} : {A : Type ℓ} → Option A → Bool
is_some none = false
is_some (some a) = true

-- The row at an iterator.
abbrev pub at {ℓ κ} : {T : Type κ} {A : Type ℓ} → (T → ℕ → Option A) → T → Option ℕ → Result Error A
at get t none = err end_dereferenced
at get t (some k) = or_fail (get t k) end_dereferenced

abbrev pub commodity_any : Bytes
commodity_any = codes "*"

module _ (c : Chain) where
  open c use {assets, orders, trades, prices}

  abbrev pub asset_le : assets.Asset → assets.Asset → Result Error Bool
  asset_le a b = or_fail (assets.le a b) bad_asset

  -- The two lookups and the checks on the orders themselves. An error message is built before its
  -- check, also when the check would fail.
  unfoldable pub find_orders : State c → Bytes → Bytes → Result Error (ℕ × Order c × ℕ × Order c)
  find_orders s buyer_oid seller_oid = do
    let buyer_itr = orders.find_by (λ r. r.oid) s.buyer buyer_oid
    let seller_itr = orders.find_by (λ r. r.oid) s.seller seller_oid
    b ← at orders.get s.buyer buyer_itr
    guard (is_some buyer_itr) (no_buyer (sha256_to_hex b.oid))
    l ← at orders.get s.seller seller_itr
    guard (is_some seller_itr) (no_seller (sha256_to_hex l.oid))
    kb ← or_fail buyer_itr end_dereferenced
    kl ← or_fail seller_itr end_dereferenced
    ok (kb, b, kl, l)

  abbrev pub is_open : Order c → Bool
  is_open o = not (o.stat == 0) && not (o.stat == 3)

  unfoldable pub check_orders : Order c → Order c → Result Error (Unit {0})
  unfolding bytes_eq
  check_orders b l = do
    guard (eqb_ℤ b.oper (pos 1)) need_buyer
    guard (eqb_ℤ l.oper (pos 0)) need_seller
    guard (not (b.consigner == l.consigner)) same_account
    guard (is_open b && is_open l) not_tradable
    in_reach ← asset_le l.price b.price
    guard in_reach price_is_higher
    guard (bytes_eq l.commodity_type b.commodity_type) different_type
    guard
        (bytes_eq l.commodity commodity_any
          || bytes_eq b.commodity commodity_any
          || bytes_eq l.commodity b.commodity)
        different_commodity

  -- The last price of the commodity, moved into the range from the seller's to the buyer's price.
  unfoldable pub next_price : assets.Asset → assets.Asset → assets.Asset → Result Error assets.Asset
  next_price last low high = do
    below ← asset_le last low
    if below then ok low else (do within ← asset_le last high; ok (if within then last else high))

  -- The new table of prices, and the price of this trade as it is read from the table afterwards.
  unfoldable pub update_price :
      prices.Table → Bytes → Order c → Order c → Result Error (prices.Table × assets.Asset)
  update_price t commodity b l =
      elim (prices.find_by (λ r. c.sha256 r.commodity_name) t (c.sha256 commodity)) [
        | none ↦ do
          id ← or_fail (prices.available_primary_key t) no_more_keys
          ok (
            prices.emplace t (record { id = id; commodity_name = commodity; price = l.price }),
            l.price,
          )
        | some k ↦ do
          mp ← or_fail (prices.get t k) end_dereferenced
          p ← next_price mp.price l.price b.price
          let t' = prices.modify t k (λ r. record r { price = p })
          mp' ← or_fail (prices.get t' k) end_dereferenced
          ok (t', mp'.price)
      ]

  abbrev pub remaining : Order c → ℤ
  remaining o = sub64 o.amount o.amount_done

  abbrev pub matched_amount : Order c → Order c → ℤ
  matched_amount b l = if ltb_ℤ (remaining b) (remaining l) then remaining b else remaining l

  -- The lambda that `modify` applies to both orders.
  unfoldable pub fill : ℤ → Order c → Order c
  fill matched o =
      let done = add64 o.amount_done matched in
      record o { amount_done = done; stat = if eqb_ℤ done o.amount then 3 else o.stat }

  unfoldable pub add_trade :
      Context
      → trades.Table
      → Bytes
      → Bytes
      → Bytes
      → Order c
      → Order c
      → assets.Asset
      → Result Error trades.Table
  add_trade ctx t buyer_oid seller_oid commodity b l price = do
    id ← or_fail (trades.available_primary_key t) no_more_keys
    ok (
        trades.emplace t (record {
          id = id;
          buyer_oid = buyer_oid;
          seller_oid = seller_oid;
          buyer = b.consigner;
          seller = l.consigner;
          commodity_type = b.commodity_type;
          commodity = if is_empty commodity then b.commodity else commodity;
          amount = matched_amount b l;
          matched_time = ctx.now;
          price = price;
        }))

  -- Copy the order at `k` into the table of done orders, and erase it from its own.
  unfoldable pub archive :
      orders.Table → orders.Table → ℕ → Result Error (orders.Table × orders.Table)
  archive table done k = do
    id ← or_fail (orders.available_primary_key done) no_more_keys
    o ← or_fail (orders.get table k) end_dereferenced
    ok (orders.erase table k, orders.emplace done (record o { id = id }))

  -- One side of the trade: fill the order, and archive it if its side is used up.
  unfoldable pub settle :
      Bool → ℤ → orders.Table → orders.Table → ℕ → Result Error (orders.Table × orders.Table)
  settle used_up matched table done k =
      let filled = orders.modify table k (fill matched) in
      if used_up then archive filled done k else ok (filled, done)

  unfoldable pub match_limit_order :
      Context → State c → Bytes → Bytes → Bytes → Result Error (State c)
  match_limit_order ctx s buyer_oid seller_oid commodity = do
    require_auth ctx (c.name_of (codes "mis.exchange"))
    (kb, b, kl, l) ← find_orders s buyer_oid seller_oid
    check_orders b l
    require_auth ctx b.consigner
    require_auth ctx l.consigner
    (ps, price) ← update_price s.matched_price commodity b l
    ts ← add_trade ctx s.matched_order buyer_oid seller_oid commodity b l price
    let m = matched_amount b l
    (bt, bo) ← settle (leb_ℤ (remaining b) (remaining l)) m s.buyer s.buyer_order kb
    (st, so) ← settle (leb_ℤ (remaining l) (remaining b)) m s.seller s.seller_order kl
    ok (record s {
      buyer = bt;
      buyer_order = bo;
      seller = st;
      seller_order = so;
      matched_order = ts;
      matched_price = ps;
    })
