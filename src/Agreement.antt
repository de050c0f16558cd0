-- ===== src/Agreement.antt =====
-- The price rule twice: `do_match_limit_order` in plugins/data_exchange_plugin/data_exchange_plugin.cpp,
-- which sends the payment, and `match_limit_order` in contracts/exchange/src/exchange.cpp, which
-- records the price of the trade. Both must come to the same price.
pub mod Tests
use gxmis_plugin.Common.{
  Bool, true, false, not, Option, some, ok, ◌≡◌, sym, ◌∙◌, arith, if◌then◌else◌,
}
use gxmis_plugin.Common.Int.{leb_ℤ, eq_of_parts}
use gxmis_plugin.Eosio.{Chain}
use gxmis_plugin.Exchange.Match.{next_price}
use gxmis_plugin.Exchange.Match.Price.{LePrice, le_symbol}
use gxmis_plugin.Plugin.Matching.{deal_price}

-- `<` on assets is the negation of `<=` the other way round.
abbrev pub IsLess : (c : Chain) → (c.assets.Asset → c.assets.Asset → Option Bool) → Type 0
IsLess c lt = (a b : c.assets.Asset) (r : Bool) → c.assets.le b a ≡ some r → lt a b ≡ some (not r)

-- Two assets that print alike.
abbrev pub SameAsset : (c : Chain) → c.assets.Asset → c.assets.Asset → Type 0
SameAsset c p q = (c.assets.symbol p ≡ c.assets.symbol q) × (c.assets.amount p ≡ c.assets.amount q)

module _ (c : Chain) where
  open c use {assets}

  abbrev Choices :
      (last low high p q : assets.Asset) → (lt : assets.Asset → assets.Asset → Option Bool) → Type 0
  Choices last low high p q lt =
      (deal_price lt (some last) low high ≡ ok p) × (next_price c last low high ≡ ok q)

  choices :
      (lt : assets.Asset → assets.Asset → Option Bool) (last low high : assets.Asset)
      (b1 b2 b3 b4 : Bool)
      → lt last low ≡ some b1
      → lt last high ≡ some b2
      → assets.le last low ≡ some b3
      → assets.le last high ≡ some b4
      → Choices last low high
          (if b1 then low else if b2 then last else high)
          (if b3 then low else if b4 then last else high)
          lt
  unfolding deal_price next_price
  choices lt last low high b1 b2 b3 b4 h1 h2 h3 h4 = ground arith

-- Where the seller's price is not above the buyer's and the last price has their symbol, the plugin
-- and the contract both come to a price, and to the same one, though the plugin compares with `<`
-- and the contract with `<=`.
pub deal_price-next_price :
    (c : Chain) (lt : c.assets.Asset → c.assets.Asset → Option Bool)
    (last low high : c.assets.Asset)
    → IsLess c lt
    → c.assets.symbol last ≡ c.assets.symbol low
    → LePrice c low high
    → (p : c.assets.Asset) × (q : c.assets.Asset) × (deal_price lt (some last) low high ≡ ok p)
      × (next_price c last low high ≡ ok q)
      × SameAsset c p q
deal_price-next_price c lt last low high is_less same reach =
    let x = c.assets.amount last in
    let y = c.assets.amount low in
    let z = c.assets.amount high in
    let reach_symbol = le_symbol c.assets low high true reach in
    let to_high = same ∙ reach_symbol in
    let (proposed, recorded) =
      choices c lt last low high (not (leb_ℤ y x)) (not (leb_ℤ z x)) (leb_ℤ x y) (leb_ℤ x z)
        (is_less last low (leb_ℤ y x) (c.assets.le_same low last (sym same)))
        (is_less last high (leb_ℤ z x) (c.assets.le_same high last (sym to_high)))
        (c.assets.le_same last low same) (c.assets.le_same last high to_high) in
    (
      if not (leb_ℤ y x) then low else if not (leb_ℤ z x) then last else high,
      if leb_ℤ x y then low else if leb_ℤ x z then last else high,
      proposed,
      recorded,
      (
        ground arith,
        ground
            (arith, eq_of_parts x y, eq_of_parts x z, eq_of_parts y z, c.assets.le_same low high),
      ),
    )
