-- ===== src/Exchange/Helpers.antt =====
-- The actions of contracts/exchange/src/exchange.cpp that only check a signature, and the private
-- members that no action calls.
use gxmis_plugin.Common.{
  ℕ, suc, ◌%◌, ◌^◌, Bool, Bytes, Option, none, some, Result, ok, ◌>>=◌, ◌>>◌, or_fail,
}
use gxmis_plugin.Eosio.{Chain, Context}
use gxmis_plugin.Exchange.{State, Error, require_auth, end_dereferenced}
use gxmis_plugin.Exchange.Match.{fill}

module _ (c : Chain) where
  open c use {assets, orders, trades}

  unfoldable pub buydata :
      Context → State c → ℕ → ℕ → Bytes → Bytes → Bytes → Bytes → Result Error (State c)
  buydata ctx s buyer seller orderid ordertime paytime payamount = do require_auth ctx buyer; ok s

  unfoldable pub approvedata :
      Context → State c → ℕ → ℕ → Bytes → Bytes → Bool → Result Error (State c)
  approvedata ctx s requester provider content time approved = do require_auth ctx requester; ok s

  unfoldable pub uploaddata : Context → State c → ℕ → Bytes → Bytes → Bytes → Result Error (State c)
  uploaddata ctx s uploader content datatype time = do require_auth ctx uploader; ok s

  -- The trade is read before the check that it exists, so that the check can not fail. The order's
  -- own amount is what the lambda compares with.
  unfoldable pub do_update_limit_order : State c → Bytes → ℕ → Result Error (State c)
  do_update_limit_order s oid mlo_id = do
    mlo ← or_fail (trades.get s.matched_order mlo_id) end_dereferenced
    lo_itr ← or_fail (orders.find_by (λ r. r.oid) s.buyer oid) end_dereferenced
    ok (record s { buyer = orders.modify s.buyer lo_itr (fill c mlo.amount) })

  -- The balance of another contract's table, which is a parameter.
  unfoldable pub get_account_balance :
      (ℕ → ℕ → Bytes → Option assets.Asset) → ℕ → ℕ → Bytes → Result Error assets.Asset
  get_account_balance accounts token_contract_account owner sym =
      or_fail (accounts token_contract_account owner sym) end_dereferenced

-- The singleton `_sid`: the new number, which is also what is stored.
unfoldable pub next_id : Option ℕ → ℕ × Option ℕ
next_id none = (0, some 0)
next_id (some sid) = let id = suc sid % 2 ^ 64 in (id, some id)
