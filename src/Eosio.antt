-- ===== src/Eosio.antt =====
-- What contracts/exchange uses of the EOSIO contract library, which the repository does not hold:
-- the tables (`eosio::multi_index`), `eosio::asset`, `sha256`, names and the action's context. Each
-- is a parameter of the model, with the documented behaviour that the contract relies on as laws.
pub mod Rows
pub mod Reference
pub mod Instance
pub mod Every
pub mod Total
use gxmis_plugin.Common.{ℕ, ◌≡◌, ◌≢◌, Bool, Option, none, some, Bytes, ◌==◌, if◌then◌else◌}
use gxmis_plugin.Common.Int.{ℤ, leb_ℤ, pos}
use Rows.{
  CommodityType, MatchedPrice, ConsignmentOrder, MatchedOrder, WalletPassword, SgxModelResult,
}

-- A table. An iterator is the primary key of the row that it stands at, and `none` is `end()`.
pub record MultiIndex (Row : Type 0) (primary_key : Row → ℕ) : Type 1 where
  pub Table : Type 0
  -- `find(k)`, and the row at an iterator
  pub get : Table → ℕ → Option Row
  -- `get_index<...>().find(c)`, for the index on a checksum of the row
  pub find_by : (Row → Bytes) → Table → Bytes → Option ℕ
  -- `none` is its failing check at the last key
  pub available_primary_key : Table → Option ℕ
  pub emplace : Table → Row → Table
  pub modify : Table → ℕ → (Row → Row) → Table
  pub erase : Table → ℕ → Table
  pub get_key : (t : Table) (k : ℕ) (r : Row) → get t k ≡ some r → primary_key r ≡ k
  pub find_by_sound :
      (key : Row → Bytes) (t : Table) (c : Bytes) (k : ℕ)
      → find_by key t c ≡ some k
      → (r : Row) × (get t k ≡ some r) × (key r ≡ c)
  pub find_by_complete :
      (key : Row → Bytes) (t : Table) (c : Bytes) (k : ℕ) (r : Row)
      → find_by key t c ≡ none
      → get t k ≡ some r
      → key r ≢ c
  pub available_free : (t : Table) (k : ℕ) → available_primary_key t ≡ some k → get t k ≡ none
  pub get-emplace :
      (t : Table) (r : Row) (j : ℕ)
      → get t (primary_key r) ≡ none
      → get (emplace t r) j ≡ (if primary_key r == j then some r else get t j)
  pub get-modify :
      (t : Table) (k : ℕ) (f : Row → Row) (r : Row) (j : ℕ)
      → get t k ≡ some r
      → primary_key (f r) ≡ k
      → get (modify t k f) j ≡ (if k == j then some (f r) else get t j)
  pub get-erase :
      (t : Table) (k : ℕ) (r : Row) (j : ℕ)
      → get t k ≡ some r
      → get (erase t k) j ≡ (if k == j then none else get t j)

-- `eosio::asset`. `none` is a failing check of the library: two symbols in one comparison, or a
-- product out of range.
pub record Assets : Type 1 where
  pub Asset : Type 0
  pub symbol : Asset → Bytes
  pub amount : Asset → ℤ
  pub le : Asset → Asset → Option Bool
  pub mul : Asset → ℤ → Option Asset
  pub to_string : Asset → Bytes
  pub le_same : (a b : Asset) → symbol a ≡ symbol b → le a b ≡ some (leb_ℤ (amount a) (amount b))
  pub le_differ : (a b : Asset) → symbol a ≢ symbol b → le a b ≡ none

-- The chain that the contract runs on.
pub record Chain : Type 1 where
  pub assets : Assets
  pub sha256 : Bytes → Bytes
  -- `"..."_n`
  pub name_of : Bytes → ℕ
  pub commodity_types : MultiIndex CommodityType (λ r. r.id)
  pub orders : MultiIndex (ConsignmentOrder assets.Asset) (λ r. r.id)
  pub trades : MultiIndex (MatchedOrder assets.Asset) (λ r. r.id)
  pub prices : MultiIndex (MatchedPrice assets.Asset) (λ r. r.id)
  pub wallets : MultiIndex WalletPassword (λ r. r.account)
  pub results : MultiIndex SgxModelResult (λ r. r.id)

-- The context of one action: who has signed it, and `current_time_point()` in microseconds.
pub record Context : Type 0 where
  pub has_auth : ℕ → Bool
  pub now : ℤ
