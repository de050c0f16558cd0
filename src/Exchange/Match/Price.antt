-- ===== src/Exchange/Match/Price.antt =====
-- The price of a trade.
use gxmis_plugin.Common.{
  ℕ, ◌≡◌, ◌≢◌, ◌⊎◌, subst, sym, refl, true, false, some, Bytes, bytes_eq, bytes_eq_iff, ok, arith,
  inl, inr, Bool, Bool-cases, Option-cases, Result-cases,
}
use gxmis_plugin.Eosio.{Chain, Assets}
use gxmis_plugin.Eosio.Rows.{MatchedPrice}
use gxmis_plugin.Exchange.{Order}
use gxmis_plugin.Exchange.Match.{next_price, update_price}

module _ (a : Assets) where
  abbrev pub LeAsset : a.Asset → a.Asset → Type 0
  LeAsset x y = a.le x y ≡ some true

  pub le_symbol : (x y : a.Asset) (r : Bool) → a.le x y ≡ some r → a.symbol x ≡ a.symbol y
  le_symbol x y r h = elim (Bool-cases (bytes_eq (a.symbol x) (a.symbol y))) [
    | inl e ↦ (bytes_eq_iff _ _).0 e
    | inr e ↦ absurd (ground (arith, a.le_differ x y, bytes_eq_iff (a.symbol x) (a.symbol y)))
  ]

  pub le_refl : (x : a.Asset) → LeAsset x x
  le_refl x = ground (arith, a.le_same x x refl)

  -- A comparison that fails shows the other order.
  pub le_of_not-le : (x y : a.Asset) → a.le x y ≡ some false → LeAsset y x
  le_of_not-le x y h =
      let e = le_symbol x y false h in ground (arith, a.le_same x y e, a.le_same y x)

module _ (c : Chain) where
  abbrev pub LePrice : c.assets.Asset → c.assets.Asset → Type 0
  LePrice = LeAsset c.assets

  next_price_bounds :
      (last low high p : c.assets.Asset)
      → LePrice low high
      → next_price c last low high ≡ ok p
      → LePrice low p × LePrice p high
  unfolding next_price
  next_price_bounds last low high p h e =
      ground (arith, le_refl c.assets low, le_refl c.assets high, le_of_not-le c.assets last low)

  -- The last price, moved to the nearest price between the seller's and the buyer's.
  abbrev pub Nearest : c.assets.Asset → c.assets.Asset → c.assets.Asset → c.assets.Asset → Type 0
  Nearest last low high p =
      (LePrice last low × (p ≡ low))
      ⊎ ((LePrice low last × LePrice last high × (p ≡ last)) ⊎ (LePrice high last × (p ≡ high)))

  next_price-Nearest :
      (last low high p : c.assets.Asset)
      → next_price c last low high ≡ ok p
      → Nearest last low high p
  unfolding next_price
  next_price-Nearest last low high p e = elim (Option-cases (c.assets.le last low)) [
    | inl bad ↦ absurd (ground arith)
    | inr (true, below) ↦ inl (below, ground arith)
    | inr (false, above) ↦ elim (Option-cases (c.assets.le last high)) [
      | inl bad ↦ absurd (ground arith)
      | inr (true, within) ↦ inr (inl (le_of_not-le c.assets last low above, within, ground arith))
      | inr (false, over) ↦ inr (inr (le_of_not-le c.assets last high over, ground arith))
    ]
  ]

  -- No row of the commodity has a price yet.
  abbrev pub Unpriced : c.prices.Table → Bytes → Type 0
  Unpriced t commodity =
      (j : ℕ) (r : MatchedPrice c.assets.Asset)
      → c.prices.get t j ≡ some r
      → c.sha256 r.commodity_name ≢ c.sha256 commodity

  -- What a call of `update_price` did: it wrote the price `p` to one row of the commodity, at `k`.
  pub record Priced (t t' : c.prices.Table) (commodity : Bytes) (low high p : c.assets.Asset)
      (k : ℕ) : Type 0 where
    pub row : MatchedPrice c.assets.Asset
    pub written : c.prices.get t' k ≡ some row
    pub row_price : row.price ≡ p
    pub row_name : c.sha256 row.commodity_name ≡ c.sha256 commodity
    pub others : (j : ℕ) → j ≢ k → c.prices.get t' j ≡ c.prices.get t j
    pub rule :
        (Unpriced t commodity × (p ≡ low))
        ⊎ ((mp : MatchedPrice c.assets.Asset) × (c.prices.get t k ≡ some mp)
            × (c.sha256 mp.commodity_name ≡ c.sha256 commodity)
            × Nearest mp.price low high p)
    pub above : LePrice low p
    pub below : LePrice p high

  module _ (t t' : c.prices.Table) (commodity : Bytes) (b l : Order c) (p : c.assets.Asset) where
    new_price :
        (id : ℕ)
        → c.prices.available_primary_key t ≡ some id
        → Unpriced t commodity
        → LePrice l.price b.price
        → t' ≡ c.prices.emplace t (record { id = id; commodity_name = commodity; price = l.price })
        → p ≡ l.price
        → Priced t t' commodity l.price b.price p id
    new_price id free missing h et ep =
        let r : MatchedPrice c.assets.Asset = record {
          id = id;
          commodity_name = commodity;
          price = l.price;
        } in
        let stored = λ (j : ℕ). c.prices.get-emplace t r j (c.prices.available_free t id free) in
        record {
          row = r;
          written = ground (arith, stored id);
          row_price = ground arith;
          row_name = refl;
          others = λ j ne. ground (arith, stored j);
          rule = inl (missing, ep);
          above = ground (arith, le_refl c.assets l.price);
          below = ground arith;
        }

    old_price :
        (k : ℕ) (mp : MatchedPrice c.assets.Asset) (q : c.assets.Asset)
        → c.prices.get t k ≡ some mp
        → c.sha256 mp.commodity_name ≡ c.sha256 commodity
        → LePrice l.price b.price
        → next_price c mp.price l.price b.price ≡ ok q
        → t' ≡ c.prices.modify t k (λ r. record r { price = q })
        → p ≡ q
        → Priced t t' commodity l.price b.price p k
    old_price k mp q e named h eq et ep =
        let stored = λ (j : ℕ).
          c.prices.get-modify t k (λ r. record r { price = q }) mp j e
            (c.prices.get_key t k mp e) in
        let bounds = next_price_bounds mp.price l.price b.price q h eq in
        record {
          row = record mp { price = q };
          written = ground (arith, stored k);
          row_price = ground arith;
          row_name = named;
          others = λ j ne. ground (arith, stored j);
          rule = inr (
            mp,
            e,
            named,
            subst (Nearest mp.price l.price b.price) (sym ep)
                (next_price-Nearest mp.price l.price b.price q eq),
          );
          above = ground (arith, bounds);
          below = ground (arith, bounds);
        }

    pub update_price-Priced :
        LePrice l.price b.price
        → update_price c t commodity b l ≡ ok (t', p)
        → (k : ℕ) × Priced t t' commodity l.price b.price p k
    unfolding update_price
    update_price-Priced h e =
        elim (Option-cases
          (c.prices.find_by (λ r. c.sha256 r.commodity_name) t (c.sha256 commodity))) [
            | inl missing ↦ elim (Option-cases (c.prices.available_primary_key t)) [
              | inl full ↦ absurd (ground arith)
              | inr (id, free) ↦ (
                id,
                new_price id free
                    (λ j r e. c.prices.find_by_complete _ t (c.sha256 commodity) j r missing e) h
                    (ground arith) (ground arith),
              )
            ]
            | inr (k, hit) ↦
                let (mp, at_k, named) = c.prices.find_by_sound _ t (c.sha256 commodity) k hit in
                elim (Result-cases (next_price c mp.price l.price b.price)) [
                  | inr (er, q) ↦ absurd (ground arith)
                  | inl (q, eq) ↦
                      let stored =
                        c.prices.get-modify t k (λ r. record r { price = q }) mp k at_k
                          (c.prices.get_key t k mp at_k) in
                      (k, old_price k mp q at_k named h eq (ground arith) (ground (arith, stored)))
                ]
          ]
