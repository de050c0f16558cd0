-- ===== src/Exchange/Faults.antt =====
-- Checks that the actions lack: who may cancel an order, and which amounts an order may have.
pub mod Tests
use gxmis_plugin.Common.{
  ℕ, Result-cases, inl, inr, ◌≡◌, ◌≢◌, true, none, some, Bytes, ok, arith, is_ok, ◌<◌, ◌^◌,
}
use gxmis_plugin.Common.Int.{ℤ, pos, negsuc, sub64, wrap64, sub64_pos, ◌-ℤ◌}
use gxmis_plugin.Eosio.{Chain, Context}
use gxmis_plugin.Exchange.{State, Order}
use gxmis_plugin.Exchange.Book.Placed.{Placed, limit_order-Placed}
use gxmis_plugin.Exchange.Orders.{
  insert_item, add_commodity_type, limit_order, cancel_at, cancelled, cancel_limit_order,
}
use gxmis_plugin.Exchange.Match.{matched_amount, remaining}
use gxmis_plugin.Exchange.Match.Progress.{HasRoom}

module _ (c : Chain) where
  -- Whoever signs can cancel a buyer's order of another account: the action never compares the
  -- order's owner with the account that it is given.
  pub cancel_of_another :
      (ctx : Context) (s : State c) (consigner : ℕ) (oid : Bytes) (k : ℕ) (o : Order c)
      → ctx.has_auth consigner ≡ true
      → c.orders.find_by (λ r. r.oid) s.buyer oid ≡ some k
      → c.orders.get s.buyer k ≡ some o
      → o.consigner ≢ consigner
      → HasRoom c (c.orders.available_primary_key s.cancel_order)
      → (s' : State c) × (cancel_limit_order c ctx s consigner oid ≡ ok s')
        × (c.orders.get s'.buyer k ≡ none)
  unfolding cancel_limit_order cancel_at
  cancel_of_another ctx s consigner oid k o a hit found other (id, free) = (
    record s {
      cancel_order = c.orders.emplace s.cancel_order (cancelled c id o);
      buyer = c.orders.erase s.buyer k;
    },
    ground arith,
    ground (arith, c.orders.get-erase s.buyer k o k found),
  )

  limit_order-is_ok :
      (ctx : Context) (s : State c) (consigner : ℕ) (commodity_type commodity : Bytes) (amount : ℤ)
      (price : c.assets.Asset) (oper : ℤ) (total : c.assets.Asset)
      → ctx.has_auth consigner ≡ true
      → c.assets.mul price amount ≡ some total
      → HasRoom c (c.commodity_types.available_primary_key s.commodity_type)
      → HasRoom c (c.orders.available_primary_key s.buyer)
      → HasRoom c (c.orders.available_primary_key s.seller)
      → is_ok (limit_order c ctx s consigner commodity_type commodity amount price oper) ≡ true
  unfolding limit_order insert_item add_commodity_type
  limit_order-is_ok ctx s consigner commodity_type commodity amount price oper total a e (i, room_t)
        (j, room_b) (k, room_l) =
      ground arith

  -- An order for any amount at all, zero or less included, is placed like every other one, if the
  -- account signed, the total is in range and the tables have free keys.
  pub limit_order_any_amount :
      (ctx : Context) (s : State c) (consigner : ℕ) (commodity_type commodity : Bytes) (amount : ℤ)
      (price : c.assets.Asset) (oper : ℤ) (total : c.assets.Asset)
      → ctx.has_auth consigner ≡ true
      → c.assets.mul price amount ≡ some total
      → HasRoom c (c.commodity_types.available_primary_key s.commodity_type)
      → HasRoom c (c.orders.available_primary_key s.buyer)
      → HasRoom c (c.orders.available_primary_key s.seller)
      → (s' : State c) × (limit_order c ctx s consigner commodity_type commodity amount price oper
          ≡ ok s')
        × Placed c ctx s consigner commodity_type commodity amount price oper s'
  limit_order_any_amount ctx s consigner commodity_type commodity amount price oper total a e room_t
        room_b room_l =
      let good =
        limit_order-is_ok ctx s consigner commodity_type commodity amount price oper total a e
          room_t room_b room_l in
      elim (Result-cases
        (limit_order c ctx s consigner commodity_type commodity amount price oper)) [
          | inl (s', run) ↦ (
            s',
            run,
            limit_order-Placed c ctx s s' consigner commodity_type commodity amount price oper run,
          )
          | inr (error, run) ↦ absurd (ground (arith, good, run))
        ]
