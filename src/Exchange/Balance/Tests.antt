-- ===== src/Exchange/Balance/Tests.antt =====
-- A trade on the concrete chain, and the balance after it.
use gxmis_plugin.Common.{◌≡◌, refl, codes, ok, arith, [], ◌∷◌}
use gxmis_plugin.Common.Int.{pos}
use gxmis_plugin.Eosio.Instance.{sample}
use gxmis_plugin.Exchange.{State}
use gxmis_plugin.Exchange.Match.{match_limit_order}
use gxmis_plugin.Exchange.Tests.{buy_order, sell_order, start, all_sign, after, runs}
use gxmis_plugin.Exchange.Book.{IsBook}
use gxmis_plugin.Exchange.Reach.{here, next, trade}
use gxmis_plugin.Exchange.Balance.{IsBalanced}
use gxmis_plugin.Exchange.Balance.Life.{IsFresh, IsFresh-IsBalanced, Reach-IsBalanced}

-- Two orders of which nothing is done.
abbrev fresh_book : State sample
unfolding runs
fresh_book = record start {
  buyer = record buy_order { amount_done = pos 0 } ∷ [];
  seller = sell_order ∷ [];
}

abbrev traded_book : State sample
unfolding runs
traded_book =
    after fresh_book
      (match_limit_order sample all_sign fresh_book (codes "b") (codes "s") (codes "EOS"))

trade_run :
    match_limit_order sample all_sign fresh_book (codes "b") (codes "s") (codes "EOS")
    ≡ ok traded_book
unfolding runs
trade_run = refl

fresh_book-IsBook : IsBook sample fresh_book
unfolding runs
fresh_book-IsBook = record {
  buyers = λ k r h. ground arith;
  sellers = λ k r h. ground arith;
  bought = λ k r h. ground arith;
  sold = λ k r h. ground arith;
  cancels = λ k r h. ground arith;
  trades = λ k r h. ground arith;
}

fresh_book-IsFresh : IsFresh sample fresh_book
unfolding runs
fresh_book-IsFresh = record {
  buyers = λ k r h. ground arith;
  buyers_done = λ k r h. ground arith;
  sellers = λ k r h. ground arith;
  sellers_done = λ k r h. ground arith;
  cancels = λ k r h. ground arith;
  no_trades = λ k. refl;
}

Reach-IsBalanced_example : IsBalanced sample traded_book
Reach-IsBalanced_example =
    Reach-IsBalanced sample fresh_book traded_book
      (next here (trade all_sign (codes "b") (codes "s") (codes "EOS") trade_run)) fresh_book-IsBook
      (IsFresh-IsBalanced sample fresh_book fresh_book-IsFresh)
