-- ===== src/Mysql.antt =====
-- plugins/data_exchange_plugin/mysqlconn.cpp and mysqlconn.hpp: connections to a MySQL server and the
-- pool that shares them out. The client library is a parameter, a record of its functions on the
-- state of the world; a handle is a Boolean, true where the pointer is not null.
pub mod Connection
pub mod Data
pub mod Pool
pub mod ConnectionPool
pub mod Tests
use gxmis_plugin.Common.{ℕ, Bool, Bytes, List, Option}

-- The functions of the client library that the code calls. A Boolean result is true for success.
pub record Client (World : Type 0) : Type 1 where
  pub real_connect : World → Bool × World
  pub close : World → World
  pub real_query : World → Bytes → Bool × World
  pub next_result : World → Bool × World
  pub affected_rows : World → ℕ
  pub ping : World → Bool × World

pub data DbError : Type 0 where
  null_handle empty_pool out_of_fuel out_of_range no_server : DbError
