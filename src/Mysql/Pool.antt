-- ===== src/Mysql/Pool.antt =====
-- `MysqlConnPool`: the choice of a connection, the loop that opens it again, and the release.
pub mod Laws
use gxmis_plugin.Common.{
  ℕ, zero, suc, ◌+◌, Bool, true, false, not, ◌&&◌, List, [], ◌∷◌, length, get_elem?, set, replicate,
  leb, ltb, guard, Option, none, some, Result, ok, err, ◌>>=◌, ◌>>◌, or_fail, if◌then◌else◌,
}
use gxmis_plugin.Mysql.{Client, DbError, empty_pool, out_of_fuel, out_of_range}
use gxmis_plugin.Mysql.Connection.{
  MysqlConnection, new_connection, is_connected, trylock, connect, ping, unlock,
}

pub record MysqlConnPool : Type 0 where
  pub conn_list : List MysqlConnection
  pub conn_index : ℕ

unfoldable pub new_pool : ℕ → MysqlConnPool
new_pool pool_count = record { conn_list = replicate pool_count new_connection; conn_index = 0 }

-- The loop over the list: the place of the first connection whose mutex was free.
unfoldable pub try_each : List MysqlConnection → Option (ℕ × MysqlConnection)
try_each [] = none
try_each (c ∷ cs) =
    let rest = try_each cs in
    let (free, c') = trylock c in
    if free then some (0, c') else elim rest [ none ↦ none | some (i, d) ↦ some (suc i, d) ]

-- A thread holds the connection at `place`, or it waits for that connection's mutex.
pub record Picked : Type 0 where
  pub place : ℕ
  pub waits : Bool
  pub pool : MysqlConnPool

-- `_connIndex++; if (_connIndex >= _connList.size()) _connIndex = 0;`
abbrev pub next_index : MysqlConnPool → ℕ
next_index p = let next = suc p.conn_index in if leb (length p.conn_list) next then 0 else next

-- `lockConnection` up to the point where the connection's mutex is taken or waited for. Where none is
-- free, the place to wait at goes round.
unfoldable pub pick : MysqlConnPool → Result DbError Picked
pick p = do
  guard (ltb 0 (length p.conn_list)) empty_pool
  elim (try_each p.conn_list) [
    | some (i, c') ↦
        ok (record {
          place = i;
          waits = false;
          pool = record p { conn_list = set p.conn_list i c' };
        })
    | none ↦ ok (record {
      place = p.conn_index;
      waits = true;
      pool = record p { conn_index = next_index p };
    })
  ]

module _ {World : Type 0} (client : Client World) where
  -- The test of the loop that opens the connection again.
  unfoldable pub is_alive : World → MysqlConnection → Bool × World
  is_alive w c = if is_connected c then ping client w c else (false, w)

  -- `while (!is_connected() || !ping()) connect(...)`
  unfoldable pub reconnect : ℕ → World → MysqlConnection → Result DbError (World × MysqlConnection)
  reconnect zero w c = err out_of_fuel
  reconnect (suc fuel) w c =
      let (alive, w1) = is_alive w c in
      if alive
      then ok (w1, c)
      else (do (opened, w2, c2) ← connect client w1 c; reconnect fuel w2 c2)

  -- The rest of `lockConnection`, with the mutex taken: the test before the loop, and the loop.
  unfoldable pub prepare : ℕ → World → MysqlConnection → Result DbError (World × MysqlConnection)
  prepare fuel w c =
      let (alive, w1) = is_alive w c in
      if alive
      then reconnect fuel w1 c
      else (do (opened, w2, c2) ← connect client w1 c; reconnect fuel w2 c2)

  -- `release_connection` for the connection at a place.
  unfoldable pub release_connection :
      World → MysqlConnPool → ℕ → Bool → Result DbError (World × MysqlConnPool)
  release_connection w p place do_closeconn_on_unlock = do
    c ← or_fail (get_elem? p.conn_list place) out_of_range
    let (w', c') = unlock client w c do_closeconn_on_unlock
    ok (w', record p { conn_list = set p.conn_list place c' })
