-- ===== src/Exchange/Orders.antt =====
-- `limit_order` and `cancel_limit_order` of contracts/exchange/src/exchange.cpp.
use gxmis_plugin.Common.{
  ℕ, none, some, ◌++◌, Bytes, Result, ok, err, ◌>>=◌, ◌>>◌, or_fail, take, if◌then◌else◌,
}
use gxmis_plugin.Common.Int.{ℤ, pos, eqb_ℤ, signed64}
use gxmis_plugin.Common.Decimal.{decimal}
use gxmis_plugin.Eosio.{Chain, Context}
use gxmis_plugin.Exchange.{State, Error, Order, no_more_keys, bad_asset, not_open, require_auth}

-- `snprintf` of five numbers into a buffer of 200 bytes.
unfoldable pub combined_str : ℕ → ℕ → ℤ → ℤ → ℤ → Bytes
unfolding decimal
combined_str id consigner amount consign_time oper = take 199 (
    decimal (signed64 id)
    ++ decimal (signed64 consigner)
    ++ decimal amount
    ++ decimal consign_time
    ++ decimal oper)

module _ (c : Chain) where
  -- The category goes into its table unless the table has it.
  unfoldable pub add_commodity_type :
      c.commodity_types.Table → Bytes → Result Error c.commodity_types.Table
  add_commodity_type t commodity_type =
      elim (c.commodity_types.find_by (λ r. c.sha256 r.name) t (c.sha256 commodity_type)) [
        | some k ↦ ok t
        | none ↦ do
          id ← or_fail (c.commodity_types.available_primary_key t) no_more_keys
          ok (c.commodity_types.emplace t (record { id = id; name = commodity_type }))
      ]

  -- The lambda `intert_item_f`.
  unfoldable pub insert_item :
      Context → State c → ℕ → Bytes → Bytes → ℤ → c.assets.Asset → ℤ → Result Error (Order c)
  insert_item ctx s consigner commodity_type commodity amount price oper = do
    let consign_time = ctx.now
    id ←
        or_fail
          (if eqb_ℤ oper (pos 1)
            then c.orders.available_primary_key s.buyer
            else c.orders.available_primary_key s.seller)
          no_more_keys
    let str =
        combined_str id consigner amount consign_time oper
        ++ commodity_type
        ++ commodity
        ++ c.assets.to_string price
    total ← or_fail (c.assets.mul price amount) bad_asset
    ok (record {
      id = id;
      oid = c.sha256 str;
      consigner = consigner;
      commodity_type = commodity_type;
      commodity = commodity;
      amount = amount;
      amount_done = pos 0;
      consign_time = consign_time;
      price = price;
      total = total;
      oper = oper;
      stat = 1;
    })

  unfoldable pub limit_order :
      Context → State c → ℕ → Bytes → Bytes → ℤ → c.assets.Asset → ℤ → Result Error (State c)
  limit_order ctx s consigner commodity_type commodity amount price oper = do
    require_auth ctx consigner
    types ← add_commodity_type s.commodity_type commodity_type
    co ← insert_item ctx s consigner commodity_type commodity amount price oper
    ok (
        if eqb_ℤ oper (pos 1)
        then record s { commodity_type = types; buyer = c.orders.emplace s.buyer co }
        else record s { commodity_type = types; seller = c.orders.emplace s.seller co })

  -- The copy of an order that a cancellation keeps.
  abbrev pub cancelled : ℕ → Order c → Order c
  cancelled id o = record o { id = id; stat = 0 }

  -- Copy the order at `k` into the table of cancelled orders, and erase it from its own.
  unfoldable pub cancel_at :
      c.orders.Table → c.orders.Table → ℕ → Result Error (c.orders.Table × c.orders.Table)
  cancel_at cancel_order table k = do
    id ← or_fail (c.orders.available_primary_key cancel_order) no_more_keys
    o ← or_fail (c.orders.get table k) Error.end_dereferenced
    ok (c.orders.emplace cancel_order (cancelled id o), c.orders.erase table k)

  unfoldable pub cancel_limit_order : Context → State c → ℕ → Bytes → Result Error (State c)
  cancel_limit_order ctx s consigner oid = do
    require_auth ctx consigner
    elim (c.orders.find_by (λ r. r.oid) s.buyer oid) [
      | some k ↦ do
        (cs, t) ← cancel_at s.cancel_order s.buyer k
        ok (record s { cancel_order = cs; buyer = t })
      | none ↦ elim (c.orders.find_by (λ r. r.oid) s.seller oid) [
        | some k ↦ do
          (cs, t) ← cancel_at s.cancel_order s.seller k
          ok (record s { cancel_order = cs; seller = t })
        | none ↦ err not_open
      ]
    ]
