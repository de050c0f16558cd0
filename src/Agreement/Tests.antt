-- ===== src/Agreement/Tests.antt =====
-- The two price rules on the concrete chain.
use gxmis_plugin.Common.{ℕ, Bool, not, Option, none, some, ok, codes, ◌≡◌, refl}
use gxmis_plugin.Common.Int.{pos}
use gxmis_plugin.Eosio.Instance.{sample}
use gxmis_plugin.Exchange.Match.{next_price}
use gxmis_plugin.Plugin.Matching.{deal_price}
use gxmis_plugin.Agreement.{IsLess, SameAsset, deal_price-next_price}

abbrev price_of : ℕ → sample.assets.Asset
unfolding sample
price_of n = record { symbol = codes "RMB"; amount = pos n }

unfoldable less_of : sample.assets.Asset → sample.assets.Asset → Option Bool
less_of a b = elim (sample.assets.le b a) [ none ↦ none | some r ↦ some (not r) ]

less_of-IsLess : IsLess sample less_of
unfolding less_of
less_of-IsLess a b r h = rw (h, less_of)

-- The last price is the seller's price.
deal_price-next_price_example :
    (p : sample.assets.Asset) × (q : sample.assets.Asset) × (deal_price less_of
        (some (price_of 3))
        (price_of 3)
        (price_of 5)
      ≡ ok p)
    × (next_price sample (price_of 3) (price_of 3) (price_of 5) ≡ ok q)
    × SameAsset sample p q
unfolding sample
deal_price-next_price_example =
    deal_price-next_price sample less_of (price_of 3) (price_of 3) (price_of 5) less_of-IsLess refl
      refl
