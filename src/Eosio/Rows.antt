-- ===== src/Eosio/Rows.antt =====
-- The row types of contracts/exchange/include/exchange.hpp. A `name` is its 64-bit value, a string
-- or a checksum its bytes; the type of assets is a parameter.
use gxmis_plugin.Common.{ℕ, Bytes}
use gxmis_plugin.Common.Int.{ℤ}

pub record CommodityType : Type 0 where
  pub id : ℕ
  pub name : Bytes

pub record MatchedPrice (Asset : Type 0) : Type 0 where
  pub id : ℕ
  pub commodity_name : Bytes
  pub price : Asset

-- `oper` is 1 for a buyer and 0 for a seller; `stat` is 0 cancelled, 1 open, 3 done.
pub record ConsignmentOrder (Asset : Type 0) : Type 0 where
  pub id : ℕ
  pub oid : Bytes
  pub consigner : ℕ
  pub commodity_type : Bytes
  pub commodity : Bytes
  pub amount : ℤ
  pub amount_done : ℤ
  pub consign_time : ℤ
  pub price : Asset
  pub total : Asset
  pub oper : ℤ
  pub stat : ℕ

pub record MatchedOrder (Asset : Type 0) : Type 0 where
  pub id : ℕ
  pub buyer_oid : Bytes
  pub seller_oid : Bytes
  pub buyer : ℕ
  pub seller : ℕ
  pub commodity_type : Bytes
  pub commodity : Bytes
  pub amount : ℤ
  pub matched_time : ℤ
  pub price : Asset

pub record WalletPassword : Type 0 where
  pub account : ℕ
  pub wltpwd : Bytes

pub record SgxModelResult : Type 0 where
  pub id : ℕ
  pub content : Bytes
  pub form : Bytes
  pub type : Bytes
  pub access_method : Bytes
  pub company : Bytes
  pub encrypted : ℕ
