-- ===== src/Mysql/Tests.antt =====
-- Witnesses of the theorems on connections and on the pool, with a server that logs what it is sent
-- and refuses the statement `oops`.
use gxmis_plugin.Common.{
  ℕ, Bool, true, false, not, Bytes, bytes_eq, codes, List, [], ◌∷◌, ◌++◌, ◌≡◌, refl, ok, ◌<◌,
  length, arith,
}
use gxmis_plugin.Mysql.{Client}
use gxmis_plugin.Mysql.Connection.{MysqlConnection, new_connection, execute}
use gxmis_plugin.Mysql.Connection.Laws.{sent-execute}
use gxmis_plugin.Mysql.Pool.{MysqlConnPool, Picked, pick, try_each}
use gxmis_plugin.Mysql.Pool.Laws.{Choice, pick-Choice}

abbrev logging : Client (List Bytes)
unfolding bytes_eq
logging = record {
  real_connect = λ w. (true, w);
  close = λ w. w;
  real_query = λ w q. (not (bytes_eq q (codes "oops")), w ++ (q ∷ []));
  next_result = λ w. (false, w);
  affected_rows = λ w. 1;
  ping = λ w. (true, w);
}

abbrev open_connection : MysqlConnection
open_connection = record new_connection { mysql = true; conn = true }

-- The statement fails, and the transaction is committed.
sent-execute_example :
    (done : Bool) × (rows : ℕ) × (w' : List Bytes) × (execute logging 0 [] open_connection
        (codes "oops")
        false
      ≡ ok (done, rows, w'))
    × (w'
        ≡ codes "SET AUTOCOMMIT=0"
          ∷ codes "BEGIN"
          ∷ codes "oops"
          ∷ codes "COMMIT"
          ∷ codes "SET AUTOCOMMIT=1"
          ∷ [])
unfolding logging
sent-execute_example =
    sent-execute logging (λ w. w) (λ w q. refl) 0 [] open_connection (codes "oops") refl refl

abbrev two_connections : MysqlConnPool
two_connections = record {
  conn_list = record new_connection { locked = true } ∷ new_connection ∷ [];
  conn_index = 1;
}

abbrev second : Picked
second = record {
  place = 1;
  waits = false;
  pool = record two_connections {
    conn_list =
        record new_connection { locked = true } ∷ record new_connection { locked = true } ∷ [];
  };
}

pick-Choice_example :
    (r : Picked) × (pick two_connections ≡ ok r)
    × Choice two_connections r
    × (r.place < 2)
    × (r.pool.conn_index < length r.pool.conn_list)
pick-Choice_example = pick-Choice two_connections (omega arith)

second_picked : pick two_connections ≡ ok second
unfolding pick try_each
second_picked = refl
