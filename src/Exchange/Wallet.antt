-- ===== src/Exchange/Wallet.antt =====
-- `surprise_wlt` and `deliver_sgx_model_result` of contracts/exchange/src/exchange.cpp.
pub mod Laws
use gxmis_plugin.Common.{
  ℕ, Bool, true, false, none, some, [], ◌∷◌, ◌++◌, ◌&&◌, ◌||◌, Bytes, is_empty, Result, ok, ◌>>=◌,
  ◌>>◌, or_fail, ◌==◌, if◌then◌else◌,
}
use gxmis_plugin.Common.Find.{contains}
use gxmis_plugin.Eosio.{Chain, Context}
use gxmis_plugin.Eosio.Rows.{WalletPassword}
use gxmis_plugin.Exchange.{State, Error, require_auth, no_more_keys}

-- What the lambda of `modify` writes.
unfoldable pub add_wallet : Bytes → WalletPassword → WalletPassword
unfolding contains
add_wallet wltpwd w =
    if contains w.wltpwd wltpwd then w else record w { wltpwd = w.wltpwd ++ b',' ∷ wltpwd }

module _ (c : Chain) where
  unfoldable pub surprise_wlt : Context → State c → ℕ → Bytes → Result Error (State c)
  unfolding add_wallet
  surprise_wlt ctx s account wltpwd = do
    require_auth ctx account
    ok (record s {
      wltpwd = elim (c.wallets.get s.wltpwd account) [
        | some w ↦
            if is_empty wltpwd
            then c.wallets.erase s.wltpwd account
            else c.wallets.modify s.wltpwd account (add_wallet wltpwd)
        | none ↦
            if is_empty wltpwd
            then s.wltpwd
            else c.wallets.emplace s.wltpwd (record { account = account; wltpwd = wltpwd })
      ];
    })

  unfoldable pub deliver_sgx_model_result :
      State c → Bytes → Bytes → Bytes → Bytes → Bytes → ℕ → Result Error (State c)
  deliver_sgx_model_result s content form type access_method company encrypted = do
    id ← or_fail (c.results.available_primary_key s.sgx_model_result) no_more_keys
    ok (record s {
      sgx_model_result = c.results.emplace s.sgx_model_result (record {
        id = id;
        content = content;
        form = form;
        type = type;
        access_method = access_method;
        company = company;
        encrypted = encrypted;
      });
    })
