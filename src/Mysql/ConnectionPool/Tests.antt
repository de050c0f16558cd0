-- ===== src/Mysql/ConnectionPool/Tests.antt =====
-- A server that refuses some attempts, and a pool of two connections.
use gxmis_plugin.Common.{ℕ, ◌-◌, true, false, ◌==◌, [], ◌∷◌, some, ok, err, ◌≡◌, refl, arith}
use gxmis_plugin.Mysql.{Client, no_server}
use gxmis_plugin.Mysql.Connection.{MysqlConnection, connect, disconnect, new_connection}
use gxmis_plugin.Mysql.ConnectionPool.{
  ConnectionPool, check_connection, get_connection, new_connection_pool,
}
use gxmis_plugin.Mysql.ConnectionPool.Outage.{OutageLaws}
use gxmis_plugin.Mysql.ConnectionPool.Ends.{get_connection-Ready}
use gxmis_plugin.Mysql.Pool.{try_each}
use gxmis_plugin.Mysql.Pool.Laws.{FirstFree}

-- The world is the number of attempts that are still refused.
abbrev refusing : Client ℕ
refusing = record {
  real_connect = λ w. (w == 0, w - 1);
  close = λ w. w;
  real_query = λ w q. (true, w);
  next_result = λ w. (false, w);
  affected_rows = λ w. 1;
  ping = λ w. (w == 0, w);
}

refusing-laws : OutageLaws refusing
refusing-laws = record {
  failures = λ w. w;
  refused = λ w k h. ground (arith, h);
  accepted = λ w h. ground (arith, h);
  after_close = λ w. refl;
  after_query = λ w q. refl;
  after_ping = λ w. refl;
  ping_answered = λ w h. ground (arith, h);
  ping_lost = λ w k h. ground (arith, h);
}

abbrev held : MysqlConnection
held = record new_connection { locked = true }

abbrev pool : ConnectionPool
pool = record {
  m_pool = record { conn_list = held ∷ new_connection ∷ []; conn_index = 1 };
  do_closeconn_on_unlock = true;
}

second_free : try_each pool.m_pool.conn_list ≡ some (1, held)
unfolding try_each
second_free = refl

get_connection-Ready_example :
    (w' : ℕ) × (c' : MysqlConnection) × (get_connection refusing 5 (λ q. q) 3 pool
      ≡ ok (1, w', record pool { m_pool = record { conn_list = held ∷ c' ∷ []; conn_index = 1 } }))
    × FirstFree pool.m_pool.conn_list 1 held
    × (c'.conn ≡ true)
    × (c'.locked ≡ true)
    × (w' ≡ 0)
unfolding refusing-laws
get_connection-Ready_example =
    get_connection-Ready refusing refusing-laws 5 (λ q. q) 3 pool 1 held second_free (ground arith)

-- The constructor throws where its one attempt is refused.
no_pool : new_connection_pool refusing 1 2 true ≡ err no_server
unfolding new_connection_pool check_connection connect disconnect
no_pool = refl
