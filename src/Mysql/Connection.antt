-- ===== src/Mysql/Connection.antt =====
-- `LockableObj`, `MysqlRow` and `MysqlConnection`.
pub mod Laws
use gxmis_plugin.Common.{
  ℕ, zero, suc, ◌+◌, Bool, true, false, not, Bytes, codes, List, [], ◌∷◌, ◌++◌, set, get_or, ◌&&◌,
  Result, ok, err, ◌>>=◌, ◌>>◌, guard, if◌then◌else◌,
}
use gxmis_plugin.Mysql.{Client, DbError, null_handle, out_of_fuel}

-- `MysqlRow`: the values of a row.
abbrev pub MysqlRow : Type 0
MysqlRow = List Bytes

abbrev pub get_value : MysqlRow → ℕ → Bytes
get_value values index = get_or values index []

abbrev pub set_value : MysqlRow → ℕ → Bytes → MysqlRow
set_value values index value = set values index value

abbrev pub add_value : MysqlRow → Bytes → MysqlRow
add_value values value = values ++ (value ∷ [])

-- The two handles of a connection, its mutex and its switch.
pub record MysqlConnection : Type 0 where
  pub mysql : Bool
  pub conn : Bool
  pub locked : Bool
  pub transaction_on_execute : Bool

abbrev pub new_connection : MysqlConnection
new_connection = record {
  mysql = false;
  conn = false;
  locked = false;
  transaction_on_execute = true;
}

abbrev pub is_connected : MysqlConnection → Bool
is_connected c = c.conn

-- `try_lock` of the mutex: whether it was free, and the connection with the mutex taken.
abbrev pub trylock : MysqlConnection → Bool × MysqlConnection
trylock c = (not c.locked, record c { locked = true })

module _ {World : Type 0} (client : Client World) where
  open client use {real_connect, close, real_query, next_result, affected_rows}

  unfoldable pub disconnect : World → MysqlConnection → Bool × World × MysqlConnection
  disconnect w c =
      if c.mysql then (true, close w, record c { mysql = false; conn = false }) else (false, w, c)

  -- `while (mysql_next_result(_conn) == 0)`: the sum of the affected rows.
  unfoldable pub next_results : ℕ → World → ℕ → Result DbError (ℕ × World)
  next_results zero w rows = err out_of_fuel
  next_results (suc fuel) w rows =
      let (more, w') = next_result w in
      let rest = next_results fuel w' (rows + affected_rows w') in
      if more then rest else ok (rows, w')

  -- Whether the query succeeded, the affected rows, and the world after it.
  unfoldable pub exec :
      ℕ → World → MysqlConnection → Bytes → Bool → Result DbError (Bool × ℕ × World)
  exec fuel w c query multiline =
      if not c.conn
      then err null_handle
      else (let (done, w') = real_query w query in
          let rows = affected_rows w' in
          if not done
          then ok (false, 0, w')
          else (if multiline
              then (do (sum, w'') ← next_results fuel w' rows; ok (true, sum, w''))
              else ok (true, rows, w')))

  unfoldable pub transaction_start : World → MysqlConnection → Result DbError World
  transaction_start w c = do
    (a, i, w1) ← exec zero w c (codes "SET AUTOCOMMIT=0") false
    (b, j, w2) ← exec zero w1 c (codes "BEGIN") false
    ok w2

  unfoldable pub transaction_commit : World → MysqlConnection → Result DbError World
  transaction_commit w c = do
    (a, i, w1) ← exec zero w c (codes "COMMIT") false
    (b, j, w2) ← exec zero w1 c (codes "SET AUTOCOMMIT=1") false
    ok w2

  unfoldable pub transaction_rollback : World → MysqlConnection → Result DbError World
  transaction_rollback w c = do
    (a, i, w1) ← exec zero w c (codes "ROLLBACK") false
    (b, j, w2) ← exec zero w1 c (codes "SET AUTOCOMMIT=1") false
    ok w2

  unfoldable pub execute :
      ℕ → World → MysqlConnection → Bytes → Bool → Result DbError (Bool × ℕ × World)
  execute fuel w c query multiline = do
    w1 ← (if c.transaction_on_execute then transaction_start w c else ok w)
    (done, rows, w2) ← exec fuel w1 c query multiline
    w3 ← (if c.transaction_on_execute then transaction_commit w2 c else ok w2)
    ok (done, rows, w3)

  -- A new handle, and the two settings of every session.
  unfoldable pub connect : World → MysqlConnection → Result DbError (Bool × World × MysqlConnection)
  connect w c =
      let (was_open, w1, c1) = disconnect w c in
      let (opened, w2) = real_connect w1 in
      if not opened
      then ok (false, close w2, record c1 { mysql = false; conn = false })
      else (let c2 : MysqlConnection = record c1 { mysql = true; conn = true } in
          do
            (a, i, w3) ← exec zero w2 c2 (codes "SET NAMES utf8mb4") false
            (b, j, w4) ← exec zero w3 c2 (codes "SET time_zone = '+00:00'") false
            ok (true, w4, c2))

  -- `ping`: a connection without a handle does not ask the server.
  unfoldable pub ping : World → MysqlConnection → Bool × World
  ping w c = if c.conn then client.ping w else (false, w)

  -- `unlock(do_disconnect)`
  unfoldable pub unlock : World → MysqlConnection → Bool → World × MysqlConnection
  unlock w c do_disconnect =
      let (was_open, w', c') = disconnect w c in
      if do_disconnect then (w', record c' { locked = false }) else (w, record c { locked = false })
