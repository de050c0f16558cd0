-- ===== src/Exchange/Book/Placed.antt =====
-- What `limit_order` does, row by row.
use gxmis_plugin.Common.{
  ◌⊎◌, subst, ℕ, ◌≡◌, ◌≢◌, refl, none, some, true, ◌++◌, ◌==◌, if◌then◌else◌, Option-cases,
  Result-cases, Bytes, Bool-cases, ok, arith, inl, inr,
}
use gxmis_plugin.Common.Int.{ℤ, pos, eqb_ℤ, eq_of_parts}
use gxmis_plugin.Eosio.{Chain, Context}
use gxmis_plugin.Eosio.Rows.{CommodityType}
use gxmis_plugin.Exchange.{State, Order}
use gxmis_plugin.Exchange.Orders.{combined_str, insert_item, add_commodity_type, limit_order}

module _ (c : Chain) where
  -- The order that `limit_order` stores.
  abbrev pub new_order :
      Context → ℕ → Bytes → Bytes → ℤ → c.assets.Asset → ℤ → ℕ → c.assets.Asset → Order c
  new_order ctx consigner commodity_type commodity amount price oper id total = record {
    id = id;
    oid = c.sha256 (
        combined_str id consigner amount ctx.now oper
        ++ commodity_type
        ++ commodity
        ++ c.assets.to_string price);
    consigner = consigner;
    commodity_type = commodity_type;
    commodity = commodity;
    amount = amount;
    amount_done = pos 0;
    consign_time = ctx.now;
    price = price;
    total = total;
    oper = oper;
    stat = 1;
  }

  -- The table `t'` is `t` with one more row, under a new key.
  abbrev pub OneMore : c.orders.Table → c.orders.Table → Order c → Type 0
  OneMore t t' o =
      (c.orders.get t o.id ≡ none)
      × ((j : ℕ) → c.orders.get t' j ≡ (if o.id == j then some o else c.orders.get t j))

  -- The table of categories is as it was, or has one more row, for a category that had none.
  abbrev pub NewType : c.commodity_types.Table → c.commodity_types.Table → Bytes → ℕ → Type 0
  NewType t t' name k =
      (t' ≡ t)
      ⊎ (((j : ℕ) (r : CommodityType)
            → c.commodity_types.get t j ≡ some r
            → c.sha256 r.name ≢ c.sha256 name)
          × (c.commodity_types.get t k ≡ none)
          × ((j : ℕ)
              → c.commodity_types.get t' j ≡ (
                  if k == j
                  then some (record { id = k; name = name })
                  else c.commodity_types.get t j)))

  -- What placing an order did: it joined the table of its side, and its category is known.
  pub record Placed (ctx : Context) (s : State c) (consigner : ℕ) (commodity_type commodity : Bytes)
      (amount : ℤ) (price : c.assets.Asset) (oper : ℤ) (s' : State c) : Type 0 where
    pub signed : ctx.has_auth consigner ≡ true
    pub id : ℕ
    pub total : c.assets.Asset
    pub product : c.assets.mul price amount ≡ some total
    pub buyers :
        oper ≡ pos 1
        → OneMore s.buyer s'.buyer
            (new_order ctx consigner commodity_type commodity amount price oper id total)
          × (s'.seller ≡ s.seller)
    pub sellers :
        oper ≢ pos 1
        → OneMore s.seller s'.seller
            (new_order ctx consigner commodity_type commodity amount price oper id total)
          × (s'.buyer ≡ s.buyer)
    pub type_key : ℕ
    pub type_row : CommodityType
    pub type_known : c.commodity_types.get s'.commodity_type type_key ≡ some type_row
    pub type_name : c.sha256 type_row.name ≡ c.sha256 commodity_type
    -- the table of categories: as it was, or with one more row for a category that had none
    pub types : NewType s.commodity_type s'.commodity_type commodity_type type_key
    pub frame :
        s' ≡ record s { commodity_type = s'.commodity_type; buyer = s'.buyer; seller = s'.seller }

  known_type :
      (t t' : c.commodity_types.Table) (name : Bytes)
      → add_commodity_type c t name ≡ ok t'
      → (k : ℕ) × (r : CommodityType) × (c.commodity_types.get t' k ≡ some r)
        × (c.sha256 r.name ≡ c.sha256 name)
        × NewType t t' name k
  unfolding add_commodity_type
  known_type t t' name h =
      elim (Option-cases (c.commodity_types.find_by (λ r. c.sha256 r.name) t (c.sha256 name))) [
        | inr (k, hit) ↦
            let (r, found, named) =
              c.commodity_types.find_by_sound (λ r. c.sha256 r.name) t (c.sha256 name) k hit in
            (k, r, ground arith, named, inl (ground arith))
        | inl miss ↦ elim (Option-cases (c.commodity_types.available_primary_key t)) [
          | inl full ↦ absurd (ground arith)
          | inr (id, free) ↦
              let r : CommodityType = record { id = id; name = name } in
              let fresh = c.commodity_types.available_free t id free in
              (
                id,
                r,
                ground (
                  arith,
                  c.commodity_types.get-emplace t r id (c.commodity_types.available_free t id free),
                ),
                refl,
                inr (
                  λ j r.
                      c.commodity_types.find_by_complete (λ r. c.sha256 r.name) t (c.sha256 name) j
                        r miss,
                  fresh,
                  λ j. ground (arith, c.commodity_types.get-emplace t r j fresh),
                ),
              )
        ]
      ]

  -- The order is placed on the side of its direction, 1 for buyers and all else for sellers, under
  -- a new key, with nothing done, status 1, the price times the amount as its total and the hash of
  -- its data as its number; its category is in the table of categories, where a row was added exactly
  -- if no row had it; nothing else changed.
  pub limit_order-Placed :
      (ctx : Context) (s s' : State c) (consigner : ℕ) (commodity_type commodity : Bytes)
      (amount : ℤ) (price : c.assets.Asset) (oper : ℤ)
      → limit_order c ctx s consigner commodity_type commodity amount price oper ≡ ok s'
      → Placed ctx s consigner commodity_type commodity amount price oper s'
  unfolding limit_order insert_item
  limit_order-Placed ctx s s' consigner commodity_type commodity amount price oper h =
      elim (Result-cases (add_commodity_type c s.commodity_type commodity_type)) [
        | inr (e, p) ↦ absurd (ground arith)
        | inl (types, p) ↦ elim (Option-cases (c.assets.mul price amount)) [
          | inl e ↦ absurd (ground arith)
          | inr (total, q) ↦
              let (tk, tr, known, named, types_lem) =
                known_type s.commodity_type types commodity_type p in
              elim (Bool-cases (eqb_ℤ oper (pos 1))) [
                | inl b ↦ elim (Option-cases (c.orders.available_primary_key s.buyer)) [
                  | inl e ↦ absurd (ground arith)
                  | inr (id, free) ↦
                      let fresh = c.orders.available_free s.buyer id free in
                      let o =
                        new_order ctx consigner commodity_type commodity amount price oper id
                          total in
                      record {
                        signed = ground arith;
                        id = id;
                        total = total;
                        product = q;
                        buyers = λ e. (
                          (fresh, λ j. ground (arith, c.orders.get-emplace s.buyer o j fresh)),
                          ground arith,
                        );
                        sellers = λ e. absurd (ground (arith, eq_of_parts oper (pos 1)));
                        type_key = tk;
                        type_row = tr;
                        type_known = ground arith;
                        type_name = named;
                        types =
                            subst (λ t. NewType s.commodity_type t commodity_type tk) (ground arith)
                              types_lem;
                        frame = ground arith;
                      }
                ]
                | inr b ↦ elim (Option-cases (c.orders.available_primary_key s.seller)) [
                  | inl e ↦ absurd (ground arith)
                  | inr (id, free) ↦
                      let fresh = c.orders.available_free s.seller id free in
                      let o =
                        new_order ctx consigner commodity_type commodity amount price oper id
                          total in
                      record {
                        signed = ground arith;
                        id = id;
                        total = total;
                        product = q;
                        buyers = λ e. absurd (ground arith);
                        sellers = λ e. (
                          (fresh, λ j. ground (arith, c.orders.get-emplace s.seller o j fresh)),
                          ground arith,
                        );
                        type_key = tk;
                        type_row = tr;
                        type_known = ground arith;
                        type_name = named;
                        types =
                            subst (λ t. NewType s.commodity_type t commodity_type tk) (ground arith)
                              types_lem;
                        frame = ground arith;
                      }
                ]
              ]
        ]
      ]
