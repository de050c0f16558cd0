-- ===== src/Exchange/Tests.antt =====
-- Runs of the contract on the concrete chain, and the theorems at those runs.
use gxmis_plugin.Common.{
  ℕ, ◌≡◌, refl, true, none, some, [], ◌∷◌, codes, ok, err, Result, bytes_eq, arith, is_ok,
  if◌then◌else◌, ◌==◌,
}
use gxmis_plugin.Common.Int.{pos, add64, sub64, wrap64, ◌+ℤ◌, ◌-ℤ◌, ◌*ℤ◌}
use gxmis_plugin.Eosio.{Context}
use gxmis_plugin.Eosio.Instance.{sample}
use gxmis_plugin.Exchange.{State, Order, Error}
use gxmis_plugin.Exchange.Orders.{
  limit_order, insert_item, add_commodity_type, cancel_limit_order, cancel_at,
}
use gxmis_plugin.Exchange.Match.{
  match_limit_order, find_orders, check_orders, update_price, next_price, add_trade, settle,
  archive, fill,
}
use gxmis_plugin.Exchange.Wallet.{surprise_wlt, deliver_sgx_model_result, add_wallet}
use gxmis_plugin.Exchange.Match.Found.{Tradable}
use gxmis_plugin.Exchange.Match.Outcome.{Outcome, match_limit_order-Outcome}
use gxmis_plugin.Exchange.Match.Progress.{IsComparable, match_limit_order_ok}
use gxmis_plugin.Exchange.Book.{IsBook}
use gxmis_plugin.Exchange.Book.Placed.{Placed, limit_order-Placed}
use gxmis_plugin.Exchange.Book.Cancel.{Cancels, cancel_limit_order-Cancels}
use gxmis_plugin.Exchange.Reach.{Reach, here, next, trade, Reach-IsBook}
use gxmis_plugin.Exchange.Wallet.Laws.{after_swlt, get-surprise_wlt}

abbrev pub price_of : ℕ → sample.assets.Asset
unfolding sample
price_of n = record { symbol = codes "RMB"; amount = pos n }

abbrev pub buy_order : Order sample
unfolding sample
buy_order = record {
  id = 0;
  oid = codes "b";
  consigner = 1;
  commodity_type = codes "token";
  commodity = codes "*";
  amount = pos 10;
  amount_done = pos 2;
  consign_time = pos 5;
  price = price_of 30;
  total = price_of 300;
  oper = pos 1;
  stat = 1;
}

abbrev pub sell_order : Order sample
unfolding sample
sell_order = record {
  id = 0;
  oid = codes "s";
  consigner = 2;
  commodity_type = codes "token";
  commodity = codes "EOS";
  amount = pos 5;
  amount_done = pos 0;
  consign_time = pos 6;
  price = price_of 20;
  total = price_of 100;
  oper = pos 0;
  stat = 1;
}

abbrev pub start : State sample
unfolding sample
start = record {
  commodity_type = [];
  buyer = [];
  buyer_order = [];
  seller = [];
  seller_order = [];
  matched_order = [];
  matched_price = [];
  wltpwd = [];
  cancel_order = [];
  sgx_model_result = [];
}

-- One order on either side: the buyer still wants 8, the seller offers 5.
abbrev pub open_book : State sample
unfolding sample
open_book = record start { buyer = buy_order ∷ []; seller = sell_order ∷ [] }

abbrev pub all_sign : Context
all_sign = record { has_auth = λ n. true; now = pos 9 }

abbrev pub after : {A : Type 0} → A → Result Error A → A
after d (ok a) = a
after d (err e) = d

-- What a run of the contract on the concrete chain computes with.
unfoldable pub runs : Unit {0}
unfolding sample match_limit_order find_orders check_orders update_price next_price add_trade settle
    archive fill limit_order insert_item add_commodity_type cancel_limit_order cancel_at
    surprise_wlt add_wallet deliver_sgx_model_result add64 sub64 wrap64 ◌+ℤ◌ ◌-ℤ◌ ◌*ℤ◌ bytes_eq
runs = tt

abbrev matched : State sample
unfolding runs
matched =
    after open_book
      (match_limit_order sample all_sign open_book (codes "b") (codes "s") (codes "EOS"))

matched_run :
    match_limit_order sample all_sign open_book (codes "b") (codes "s") (codes "EOS") ≡ ok matched
unfolding runs
matched_run = refl

-- The buyer's order stays open with 7 done; the seller's is used up.
matched_orders :
    (sample.orders.get matched.buyer 0 ≡ some (record buy_order { amount_done = pos 7 }))
    × (sample.orders.get matched.seller 0 ≡ none)
    × (sample.orders.get matched.seller_order 0
        ≡ some (record sell_order { amount_done = pos 5; stat = 3 }))
unfolding runs
matched_orders = (refl, refl, refl)

match_limit_order-Outcome_example :
    Outcome sample all_sign open_book (codes "b") (codes "s") (codes "EOS") matched
match_limit_order-Outcome_example =
    match_limit_order-Outcome sample all_sign open_book matched (codes "b") (codes "s")
      (codes "EOS") matched_run

orders-Tradable : Tradable sample buy_order sell_order
unfolding runs
orders-Tradable = ground arith

no_price : IsComparable sample open_book.matched_price (codes "EOS") sell_order
unfolding runs
no_price k r h e = ground arith

match_limit_order_ok_example :
    is_ok (match_limit_order sample all_sign open_book (codes "b") (codes "s") (codes "EOS")) ≡ true
unfolding runs
match_limit_order_ok_example =
    match_limit_order_ok sample all_sign open_book (codes "b") (codes "s") (codes "EOS") 0 buy_order
      0 sell_order refl refl refl refl refl orders-Tradable refl refl no_price (0, refl) (0, refl)
      (0, refl) (0, refl)

open_book-IsBook : IsBook sample open_book
unfolding runs
open_book-IsBook = record {
  buyers = λ k r h. ground arith;
  sellers = λ k r h. ground arith;
  bought = λ k r h. ground arith;
  sold = λ k r h. ground arith;
  cancels = λ k r h. ground arith;
  trades = λ k r h. ground arith;
}

abbrev cancelled_book : State sample
unfolding runs
cancelled_book = after open_book (cancel_limit_order sample all_sign open_book 1 (codes "b"))

cancel_run : cancel_limit_order sample all_sign open_book 1 (codes "b") ≡ ok cancelled_book
unfolding runs
cancel_run = refl

cancel_limit_order-Cancels_example : Cancels sample all_sign open_book 1 (codes "b") cancelled_book
cancel_limit_order-Cancels_example =
    cancel_limit_order-Cancels sample all_sign open_book cancelled_book 1 (codes "b") cancel_run

-- A new order of account 3 for 4 units at 7.
abbrev placed_book : State sample
unfolding runs
placed_book = after open_book (
    limit_order sample all_sign open_book 3 (codes "token") (codes "EOS") (pos 4) (price_of 7)
      (pos 1))

place_run :
    limit_order sample all_sign open_book 3
      (codes "token")
      (codes "EOS")
      (pos 4)
      (price_of 7)
      (pos 1)
    ≡ ok placed_book
unfolding runs
place_run = refl

history : Reach sample open_book matched
history = next here (trade all_sign (codes "b") (codes "s") (codes "EOS") matched_run)

Reach-IsBook_example : IsBook sample matched
Reach-IsBook_example = Reach-IsBook sample open_book matched history open_book-IsBook

abbrev with_wallet : State sample
unfolding runs
with_wallet = after start (surprise_wlt sample all_sign start 1 (codes "w:p"))

abbrev with_both : State sample
unfolding runs
with_both = after with_wallet (surprise_wlt sample all_sign with_wallet 1 (codes "v:q"))

wallet_run : surprise_wlt sample all_sign start 1 (codes "w:p") ≡ ok with_wallet
unfolding runs
wallet_run = refl

wallets_kept :
    sample.wallets.get with_both.wltpwd 1 ≡ some (record { account = 1; wltpwd = codes "w:p,v:q" })
unfolding runs
wallets_kept = refl

get-surprise_wlt_example :
    sample.wallets.get with_wallet.wltpwd 1
    ≡ (if 1 == 1 then after_swlt 1 (codes "w:p") none else none)
unfolding runs
get-surprise_wlt_example =
    get-surprise_wlt sample all_sign 1 (codes "w:p") start with_wallet 1 wallet_run

limit_order-Placed_example :
    Placed sample all_sign open_book 3
      (codes "token")
      (codes "EOS")
      (pos 4)
      (price_of 7)
      (pos 1)
      placed_book
limit_order-Placed_example =
    limit_order-Placed sample all_sign open_book placed_book 3 (codes "token") (codes "EOS") (pos 4)
      (price_of 7) (pos 1) place_run
