-- ===== src/Exchange.antt =====
-- contracts/exchange: the contract's tables, its errors, and the helpers that its actions share.
-- An action is a function of the state. A failing check aborts the transaction and gives `err`, so
-- that the state stays as it was.
pub mod Orders
pub mod Match
pub mod Book
pub mod Wallet
pub mod Helpers
pub mod Balance
pub mod Faults
pub mod Reach
mod Tests
use gxmis_plugin.Common.{
  ℕ, ◌/◌, ◌%◌, ◌+◌, suc, zero, Bool, true, false, Option, none, some, List, [], ◌∷◌, ◌++◌, Bytes,
  codes, Result, ok, err, ◌>>=◌, ◌>>◌, guard, or_fail, get_or, ◌==◌, if◌then◌else◌,
}
use gxmis_plugin.Common.Int.{ℤ, pos}
use gxmis_plugin.Eosio.{Chain, Context}
use gxmis_plugin.Eosio.Rows.{ConsignmentOrder}

pub data Error : Type 0 where
  -- `require_auth`
  missing_authority : ℕ → Error
  -- a read through `end()`
  end_dereferenced : Error
  no_more_keys : Error
  -- a check inside `eosio::asset`
  bad_asset : Error
  -- the messages of `cancel_limit_order` and `match_limit_order`
  not_open : Error
  no_buyer : Bytes → Error
  no_seller : Bytes → Error
  need_buyer need_seller same_account not_tradable price_is_higher : Error
  different_type different_commodity : Error

-- The members of `mis_exchange` that its actions use.
pub record State (c : Chain) : Type 0 where
  pub commodity_type : c.commodity_types.Table
  pub buyer : c.orders.Table
  pub buyer_order : c.orders.Table
  pub seller : c.orders.Table
  pub seller_order : c.orders.Table
  pub matched_order : c.trades.Table
  pub matched_price : c.prices.Table
  pub wltpwd : c.wallets.Table
  pub cancel_order : c.orders.Table
  pub sgx_model_result : c.results.Table

abbrev pub Order : Chain → Type 0
Order c = ConsignmentOrder c.assets.Asset

abbrev pub require_auth : Context → ℕ → Result Error (Unit {0})
require_auth ctx n = guard (ctx.has_auth n) (missing_authority n)

-- The hex digit of a value below 16.
unfoldable pub hex_digit : ℕ → ℕ
hex_digit n = get_or (codes "0123456789abcdef") n 0

-- The bytes from `i` on, `s` of them. The buffer is read at most to its end.
to_hex_from : Bytes → ℕ → ℕ → Bytes
to_hex_from d i zero = []
to_hex_from d i (suc s) =
    let b = get_or d i 0 in hex_digit (b / 16) ∷ hex_digit (b % 16) ∷ to_hex_from d (suc i) s

unfoldable pub to_hex : Bytes → ℕ → Bytes
unfolding to_hex_from
to_hex d s = to_hex_from d 0 s

-- The second argument of `to_hex` is the size of a `size_t`, which is 4 bytes in WebAssembly.
unfoldable pub sha256_to_hex : Bytes → Bytes
unfolding to_hex
sha256_to_hex sha256 = to_hex sha256 4
