-- ===== src/Mysql/ConnectionPool.antt =====
-- plugins/data_exchange_plugin/connection_pool.cpp: the pool with its test of the server, and the
-- whole of `lockConnection`.
pub mod Outage
pub mod Ends
pub mod Tests
use gxmis_plugin.Common.{
  ℕ, Bool, true, set, get_elem?, Result, ok, err, ◌>>=◌, ◌>>◌, guard, or_fail, if◌then◌else◌,
}
use gxmis_plugin.Mysql.{Client, DbError, no_server, out_of_range}
use gxmis_plugin.Mysql.Connection.{MysqlConnection, connect, disconnect, new_connection}
use gxmis_plugin.Mysql.Pool.{MysqlConnPool, new_pool, pick, prepare, release_connection}

-- `connection_pool`
pub record ConnectionPool : Type 0 where
  pub m_pool : MysqlConnPool
  pub do_closeconn_on_unlock : Bool

module _ {World : Type 0} (client : Client World) where
  -- `checkConnection`: a connection of its own, which its destructor closes.
  unfoldable pub check_connection : World → Result DbError (Bool × World)
  check_connection w = do
    (connected, w1, conn) ← connect client w new_connection
    let (was_open, w2, closed) = disconnect client w1 conn
    ok (connected, w2)

  unfoldable pub new_connection_pool : World → ℕ → Bool → Result DbError (World × ConnectionPool)
  new_connection_pool w max_conn do_closeconn_on_unlock = do
    (connected, w') ← check_connection w
    guard connected no_server
    ok (w', record { m_pool = new_pool max_conn; do_closeconn_on_unlock = do_closeconn_on_unlock })

  -- `get_connection`. Where no connection is free, `others` is what the other threads make of the pool
  -- until the one that was picked is given back.
  unfoldable pub get_connection :
      ℕ
      → (MysqlConnPool → MysqlConnPool)
      → World
      → ConnectionPool
      → Result DbError (ℕ × World × ConnectionPool)
  get_connection fuel others w p = do
    r ← pick p.m_pool
    let q = if r.waits then others r.pool else r.pool
    c ← or_fail (get_elem? q.conn_list r.place) out_of_range
    (w', c') ← prepare client fuel w (record c { locked = true })
    ok (r.place, w', record p { m_pool = record q { conn_list = set q.conn_list r.place c' } })

  unfoldable pub give_back : World → ConnectionPool → ℕ → Result DbError (World × ConnectionPool)
  give_back w p place = do
    (w', pool) ← release_connection client w p.m_pool place p.do_closeconn_on_unlock
    ok (w', record p { m_pool = pool })
