-- ===== src/Exchange/Match/Runs.antt =====
-- A successful run of `match_limit_order`, taken apart into its steps.
use gxmis_plugin.Common.{ℕ, ◌≡◌, true, Bytes, codes, ok, arith, Result-cases, inl, inr}
use gxmis_plugin.Common.Int.{leb_ℤ}
use gxmis_plugin.Eosio.{Chain, Context}
use gxmis_plugin.Exchange.{State, Order}
use gxmis_plugin.Exchange.Match.{
  find_orders, check_orders, update_price, add_trade, settle, remaining, matched_amount,
  match_limit_order,
}

-- The two orders that a run finds, where they stand, and what each step returned.
pub record Run (c : Chain) (ctx : Context) (s : State c) (buyer_oid seller_oid commodity : Bytes)
    (s' : State c) : Type 0 where
  pub kb : ℕ
  pub b : Order c
  pub kl : ℕ
  pub l : Order c
  pub price : c.assets.Asset
  pub exchange_signed : ctx.has_auth (c.name_of (codes "mis.exchange")) ≡ true
  pub found : find_orders c s buyer_oid seller_oid ≡ ok (kb, b, kl, l)
  pub checked : check_orders c b l ≡ ok tt
  pub buyer_signed : ctx.has_auth b.consigner ≡ true
  pub seller_signed : ctx.has_auth l.consigner ≡ true
  pub priced : update_price c s.matched_price commodity b l ≡ ok (s'.matched_price, price)
  pub traded :
      add_trade c ctx s.matched_order buyer_oid seller_oid commodity b l price ≡ ok s'.matched_order
  pub buyer_settled :
      settle c
        (leb_ℤ (remaining c b) (remaining c l))
        (matched_amount c b l)
        s.buyer
        s.buyer_order
        kb
      ≡ ok (s'.buyer, s'.buyer_order)
  pub seller_settled :
      settle c
        (leb_ℤ (remaining c l) (remaining c b))
        (matched_amount c b l)
        s.seller
        s.seller_order
        kl
      ≡ ok (s'.seller, s'.seller_order)
  pub same_types : s'.commodity_type ≡ s.commodity_type
  pub same_wallets : s'.wltpwd ≡ s.wltpwd
  pub same_cancelled : s'.cancel_order ≡ s.cancel_order
  pub same_results : s'.sgx_model_result ≡ s.sgx_model_result

module _ (c : Chain) (ctx : Context) (s : State c) (buyer_oid seller_oid commodity : Bytes) where
  pub Run-of_match :
      (s' : State c)
      → match_limit_order c ctx s buyer_oid seller_oid commodity ≡ ok s'
      → Run c ctx s buyer_oid seller_oid commodity s'
  unfolding match_limit_order
  Run-of_match s' h = elim (Result-cases (find_orders c s buyer_oid seller_oid)) [
    | inr (e, p) ↦ absurd (ground arith)
    | inl ((kb, b, kl, l), p) ↦ elim (Result-cases (update_price c s.matched_price commodity b l)) [
      | inr (e, q) ↦ absurd (ground arith)
      | inl ((ps, price), q) ↦ record {
        kb = kb;
        b = b;
        kl = kl;
        l = l;
        price = price;
        exchange_signed = ground arith;
        found = p;
        checked = ground arith;
        buyer_signed = ground arith;
        seller_signed = ground arith;
        priced = ground arith;
        traded = ground arith;
        buyer_settled = ground arith;
        seller_settled = ground arith;
        same_types = ground arith;
        same_wallets = ground arith;
        same_cancelled = ground arith;
        same_results = ground arith;
      }
    ]
  ]
