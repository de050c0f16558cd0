-- ===== src/Plugin/Queues.antt =====
-- The queues of deals: `cell_deal` and `cell_greater_cmp` of data_exchange_plugin.hpp, `limit_order` of
-- plugins/data_exchange_plugin/data_exchange_plugin.cpp. Nothing takes a deal out of a queue.
use gxmis_plugin.Common.{Bool, Bytes, List, Option, some, if◌then◌else◌, Result, ok, ◌>>=◌}
use gxmis_plugin.Common.Int.{ℤ, pos, ltb_ℤ, eqb_ℤ}

pub data DealOp : Type 0 where
  ask_op bid_op : DealOp

pub record CellDeal (Asset : Type 0) : Type 0 where
  pub create_time : ℤ
  pub commodity_type : Bytes
  pub commodity : Bytes
  pub account : Bytes
  pub amount : ℤ
  pub price : Asset
  pub oper : DealOp

-- Assets are equal when their symbols and amounts are; the other comparison fails for two symbols.
module _ {Asset : Type 0} (eq : Asset → Asset → Bool) (lt : Asset → Asset → Option Bool) where
  -- `operator<`
  unfoldable pub cell_less : CellDeal Asset → CellDeal Asset → Option Bool
  cell_less l r =
      if eq l.price r.price then some (ltb_ℤ r.create_time l.create_time) else lt l.price r.price

  -- `cell_greater_cmp`
  unfoldable pub cell_greater_cmp : CellDeal Asset → CellDeal Asset → Option Bool
  cell_greater_cmp l r =
      if eq l.price r.price then some (ltb_ℤ l.create_time r.create_time) else lt r.price l.price

pub record Queues (Asset : Type 0) : Type 0 where
  pub prio_queue_ask : List (CellDeal Asset)
  pub prio_queue_bid : List (CellDeal Asset)

pub record LimitOrderParams : Type 0 where
  pub commodity_type : Bytes
  pub commodity : Bytes
  pub account : Bytes
  pub amount : ℤ
  pub price : Bytes
  pub oper : ℤ

-- The clock's time, the name that is read from the account, the asset that is read from the price, and
-- the `push` of a queue with its comparison are parameters; each of the last three may fail.
module _ {Asset E : Type 0} (eq : Asset → Asset → Bool) (lt : Asset → Asset → Option Bool)
    (push : (CellDeal Asset → CellDeal Asset → Option Bool)
      → List (CellDeal Asset)
      → CellDeal Asset
      → Result E (List (CellDeal Asset)))
    (to_name : Bytes → Result E Bytes) (from_string : Bytes → Result E Asset) where
  unfoldable pub limit_order : ℤ → Queues Asset → LimitOrderParams → Result E (Queues Asset)
  limit_order now q params = do
    account ← to_name params.account
    price ← from_string params.price
    let cdeal : CellDeal Asset = record {
      create_time = now;
      commodity_type = params.commodity_type;
      commodity = params.commodity;
      account = account;
      amount = params.amount;
      price = price;
      oper = if eqb_ℤ params.oper (pos 0) then ask_op else bid_op;
    }
    elim cdeal.oper [
      | bid_op ↦ do
        bids ← push (cell_greater_cmp eq lt) q.prio_queue_bid cdeal
        ok (record q { prio_queue_bid = bids })
      | ask_op ↦ do
        asks ← push (cell_less eq lt) q.prio_queue_ask cdeal
        ok (record q { prio_queue_ask = asks })
    ]
