-- ===== src/Eosio/Instance.antt =====
-- A concrete chain: list tables, assets with a symbol and an amount, and the identity for the hash.
use mathlib.Core.List.{foldl}
use gxmis_plugin.Common.{
  ℕ, ◌+◌, ◌-◌, ◌*◌, ◌^◌, ◌≡◌, ◌≢◌, Bool, List, ◌∷◌, Option, none, some, Bytes, bytes_eq,
  bytes_eq_iff, arith, leb, ◌&&◌, if◌then◌else◌, inl, inr, Bool-cases,
}
use gxmis_plugin.Common.Int.{ℤ, pos_part, neg_part, ◌*ℤ◌, leb_ℤ}
use gxmis_plugin.Eosio.{MultiIndex, Assets, Chain}
use gxmis_plugin.Eosio.Reference.{
  lookup, find_in, has_key, next_key, update, remove, lookup_key, lookup_above, lookup-update,
  lookup-remove, find_key_sound, find_key_complete, lookup-cons,
}

-- The last key that the library gives out is 2 ^ 64 - 3.
unfoldable pub free_key : {Row : Type 0} → (Row → ℕ) → List Row → Option ℕ
unfolding next_key
free_key pk t = let n = next_key pk t in if leb n (2 ^ 64 - 3) then some n else none

pub free_key_free :
    {Row : Type 0} (pk : Row → ℕ) (t : List Row) (k : ℕ)
    → free_key pk t ≡ some k
    → lookup pk t k ≡ none
unfolding free_key
free_key_free pk t k h = unfold next_key in ground (arith, lookup_above pk t k)

list_index : {Row : Type 0} (pk : Row → ℕ) → MultiIndex Row pk
unfolding lookup find_in has_key free_key update remove bytes_eq
list_index {Row} pk = record {
  Table = List Row;
  get = lookup pk;
  find_by = λ key t c. find_in pk key t t c;
  available_primary_key = free_key pk;
  emplace = λ t r. r ∷ t;
  modify = update pk;
  erase = remove pk;
  get_key = lookup_key pk;
  find_by_sound = find_key_sound pk;
  find_by_complete = find_key_complete pk;
  available_free = free_key_free pk;
  get-emplace = λ t r j h. lookup-cons pk t r j;
  get-modify = lookup-update pk;
  get-erase = λ t k r j h. lookup-remove pk t k j;
}

pub record Money : Type 0 where
  pub symbol : Bytes
  pub amount : ℤ

unfoldable pub money_le : Money → Money → Option Bool
unfolding bytes_eq
money_le a b = if bytes_eq a.symbol b.symbol then some (leb_ℤ a.amount b.amount) else none

abbrev max_amount : ℕ
max_amount = 2 ^ 62 - 1

money_mul : Money → ℤ → Option Money
unfolding ◌*ℤ◌
money_mul a n =
    let p = a.amount *ℤ n in
    if leb (pos_part p) max_amount && leb (neg_part p) max_amount
    then some (record a { amount = p })
    else none

pub money_le_same :
    (a b : Money) → a.symbol ≡ b.symbol → money_le a b ≡ some (leb_ℤ a.amount b.amount)
unfolding money_le
money_le_same a b h = unfold bytes_eq in rw ((bytes_eq_iff a.symbol b.symbol).1 h)

pub money_le_differ : (a b : Money) → a.symbol ≢ b.symbol → money_le a b ≡ none
unfolding money_le
money_le_differ a b h = elim (Bool-cases (bytes_eq a.symbol b.symbol)) [
  | inl e ↦ absurd (h ((bytes_eq_iff a.symbol b.symbol).0 e))
  | inr e ↦ rw e
]

money : Assets
unfolding money_le money_mul
money = record {
  Asset = Money;
  symbol = λ a. a.symbol;
  amount = λ a. a.amount;
  le = money_le;
  mul = money_mul;
  to_string = λ a. a.symbol;
  le_same = money_le_same;
  le_differ = money_le_differ;
}

-- The bytes of a name read as a number in base 256.
abbrev number_of : Bytes → ℕ
number_of = foldl (λ n c. n * 256 + c) 0

unfoldable pub sample : Chain
unfolding money list_index
sample = record {
  assets = money;
  sha256 = λ s. s;
  name_of = number_of;
  commodity_types = list_index (λ r. r.id);
  orders = list_index (λ r. r.id);
  trades = list_index (λ r. r.id);
  prices = list_index (λ r. r.id);
  wallets = list_index (λ r. r.account);
  results = list_index (λ r. r.id);
}
