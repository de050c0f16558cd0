-- ===== src/Mysql/Data.antt =====
-- `MysqlData`, the rows of a query, with `MysqlConnection::open` and `lastInsertID`.
pub mod Held
pub mod Tests
use gxmis_plugin.Common.{
  ℕ, zero, suc, Bool, true, false, Bytes, codes, List, [], ◌∷◌, ◌++◌, length, get_or, get_elem?,
  Option, none, some, Result, ok, err, ◌>>=◌, if◌then◌else◌,
}
use gxmis_plugin.Common.Int.{ℤ, pos}
use gxmis_plugin.Mysql.{Client, DbError, null_handle}
use gxmis_plugin.Mysql.Connection.{MysqlConnection, MysqlRow, get_value, add_value}

-- The functions of the client library for results: `mysql_use_result` with the names of the
-- columns, `mysql_fetch_row` with the lengths of the values, where a missing value is NULL, and
-- `mysql_free_result`.
pub record Results (World : Type 0) : Type 0 where
  pub use_result : World → Option (List Bytes) × World
  pub fetch_row : World → Option (List (Option Bytes)) × World
  pub free_result : World → World

-- `_sqlResult`, `_conn` and `_columns`.
pub record MysqlData : Type 0 where
  pub has_result : Bool
  pub has_conn : Bool
  pub columns : List Bytes

abbrev pub new_data : MysqlData
new_data = record { has_result = false; has_conn = false; columns = [] }

abbrev pub column_count : MysqlData → ℕ
column_count d = length d.columns

abbrev pub column_name : MysqlData → ℕ → Bytes
column_name d index = get_or d.columns index []

-- A NULL value has length 0, and becomes an empty text.
abbrev pub value_text : Option (Option Bytes) → Bytes
value_text none = []
value_text (some none) = []
value_text (some (some s)) = s

-- The loop over the columns from a place on.
unfoldable pub add_values : List Bytes → List (Option Bytes) → ℕ → MysqlRow → MysqlRow
add_values [] row i values = values
add_values (c ∷ columns) row i values =
    add_values columns row (suc i) (add_value values (value_text (get_elem? row i)))

-- The number of the first value, 0 where there is no row or no number. `std::stoll` is
-- a parameter, none where it throws.
unfoldable pub id_of : (Bytes → Option ℤ) → Option MysqlRow → ℤ
id_of stoll none = pos 0
id_of stoll (some row) = elim (stoll (get_value row 0)) [ none ↦ pos 0 | some n ↦ n ]

module _ {World : Type 0} (client : Client World) (results : Results World) where
  open client use {real_query, next_result}
  open results use {use_result, fetch_row, free_result}

  -- `~MysqlData`
  unfoldable pub destroy : World → MysqlData → World
  destroy w d = if d.has_result then free_result w else w

  -- `store`, for a connection that is not null.
  unfoldable pub store : World → MysqlData → Bool × World × MysqlData
  store w d =
      let (found, w') = use_result w in
      elim found [
        | none ↦ (false, w', record d { has_result = false })
        | some names ↦ (true, w', record d { has_result = true; has_conn = true; columns = names })
      ]

  unfoldable pub next : World → MysqlData → Result DbError (Option MysqlRow × World)
  next w d =
      let (row, w') = fetch_row w in
      if d.has_result
      then elim row [
        | none ↦ ok (none, w')
        | some values ↦ ok (some (add_values d.columns values 0 []), w')
      ]
      else err null_handle

  -- `more`, after the columns and the old result are gone.
  unfoldable pub store_next : World → MysqlData → Bool × World × MysqlData
  store_next w d =
      let (another, w') = next_result w in
      let (stored, w'', d') = store w' d in
      if d.has_conn then (if another then (true, w'', d') else (false, w', d)) else (false, w, d)

  unfoldable pub more : World → MysqlData → Bool × World × MysqlData
  more w d = store_next (destroy w d) (record d { has_result = false; columns = [] })

  -- `open`: the data without a result where there is no connection or the query fails.
  unfoldable pub open_query : World → MysqlConnection → Bytes → World × MysqlData
  open_query w c query =
      let (done, w') = real_query w query in
      let (stored, w'', d) = store w' new_data in
      if c.conn then (if done then (w'', d) else (w', new_data)) else (w, new_data)

  -- `lastInsertID`
  unfoldable pub last_insert_id :
      (Bytes → Option ℤ) → World → MysqlConnection → Result DbError (ℤ × World)
  last_insert_id stoll w c =
      let (w1, d) = open_query w c (codes "SELECT LAST_INSERT_ID() AS ID") in
      if d.has_result
      then (do (found, w2) ← next w1 d; ok (id_of stoll found, destroy w2 d))
      else ok (pos 0, destroy w1 d)
