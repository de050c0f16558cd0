-- ===== src/Plugin/Options.antt =====
-- The options of plugins/data_exchange_plugin/data_exchange_plugin.cpp: their defaults, and what
-- `plugin_initialize` sets.
use gxmis_plugin.Common.{Bytes, codes, Option, none, some}

-- The members that the options set.
pub record Settings : Type 0 where
  pub wallet_url : Bytes
  pub exchange_contract_acct : Bytes
  pub eosiotoken_contract_acct : Bytes
  pub eosiosystem_contract_acct : Bytes

-- `set_program_options`
abbrev pub default_settings : Settings
default_settings = record {
  wallet_url = codes "http://127.0.0.1:8900";
  exchange_contract_acct = codes "mis.exchange";
  eosiotoken_contract_acct = codes "eosio.token";
  eosiosystem_contract_acct = codes "eosio";
}

abbrev pub set_if : {A : Type 0} → Option Bytes → (Bytes → A → A) → A → A
set_if none set a = a
set_if (some value) set a = set value a

-- `plugin_initialize` without the timer; the options are a function of their names.
unfoldable pub plugin_initialize : (Bytes → Option Bytes) → Settings → Settings
plugin_initialize options my =
    set_if (options (codes "eosiosystem_contract_acct"))
      (λ v m. record m { eosiosystem_contract_acct = v })
      (set_if (options (codes "eosiotoken_contract_acct"))
        (λ v m. record m { eosiotoken_contract_acct = v })
        (set_if (options (codes "exchange_contract_acct"))
          (λ v m. record m { exchange_contract_acct = v })
          (set_if (options (codes "wallet-url")) (λ v m. record m { wallet_url = v }) my)))
