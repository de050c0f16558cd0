-- ===== src/Eosio/Every.antt =====
-- A property of every row of a table, through the operations that change a table.
use gxmis_plugin.Common.{ℕ, ◌≡◌, none, some, arith}
use gxmis_plugin.Eosio.{MultiIndex}

module _ {Row : Type 0} {pk : Row → ℕ} (ix : MultiIndex Row pk) (P : Row → Type 0) where
  abbrev pub Every : ix.Table → Type 0
  Every t = (k : ℕ) (r : Row) → ix.get t k ≡ some r → P r

  pub Every-emplace :
      (t : ix.Table) (r : Row) → ix.get t (pk r) ≡ none → P r → Every t → Every (ix.emplace t r)
  Every-emplace t r free p all k r' h = ground (arith, ix.get-emplace t r k free, all k r')

  pub Every-modify :
      (t : ix.Table) (k : ℕ) (f : Row → Row) (r : Row)
      → ix.get t k ≡ some r
      → pk (f r) ≡ k
      → P (f r)
      → Every t
      → Every (ix.modify t k f)
  Every-modify t k f r e same p all j r' h =
      ground (arith, ix.get-modify t k f r j e same, all j r')

  pub Every-erase :
      (t : ix.Table) (k : ℕ) (r : Row) → ix.get t k ≡ some r → Every t → Every (ix.erase t k)
  Every-erase t k r e all j r' h = ground (arith, ix.get-erase t k r j e, all j r')
