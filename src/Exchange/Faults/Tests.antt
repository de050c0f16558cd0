-- ===== src/Exchange/Faults/Tests.antt =====
-- The faults, at concrete orders.
use gxmis_plugin.Common.{◌≡◌, refl, none, codes, ok, arith}
use gxmis_plugin.Common.Int.{pos, negsuc}
use gxmis_plugin.Eosio.Instance.{sample}
use gxmis_plugin.Exchange.{State}
use gxmis_plugin.Exchange.Book.Placed.{Placed}
use gxmis_plugin.Exchange.Orders.{limit_order, cancel_limit_order}
use gxmis_plugin.Exchange.Faults.{cancel_of_another, limit_order_any_amount}
use gxmis_plugin.Exchange.Tests.{price_of, buy_order, start, open_book, all_sign, runs}

cancel_of_another_example :
    (s' : State sample) × (cancel_limit_order sample all_sign open_book 2 (codes "b") ≡ ok s')
    × (sample.orders.get s'.buyer 0 ≡ none)
unfolding runs
cancel_of_another_example =
    cancel_of_another sample all_sign open_book 2 (codes "b") 0 buy_order refl refl refl
      (omega arith) (0, refl)

abbrev debt : sample.assets.Asset
unfolding sample
debt = record { symbol = codes "RMB"; amount = negsuc 34 }

limit_order_any_amount_example :
    (s' : State sample) × (limit_order sample all_sign start 1
        (codes "token")
        (codes "EOS")
        (negsuc 4)
        (price_of 7)
        (pos 1)
      ≡ ok s')
    × Placed sample all_sign start 1
        (codes "token")
        (codes "EOS")
        (negsuc 4)
        (price_of 7)
        (pos 1)
        s'
unfolding runs
limit_order_any_amount_example =
    limit_order_any_amount sample all_sign start 1 (codes "token") (codes "EOS") (negsuc 4)
      (price_of 7) (pos 1) debt refl refl (0, refl) (0, refl) (0, refl)
