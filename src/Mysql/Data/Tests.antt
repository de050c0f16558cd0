-- ===== src/Mysql/Data/Tests.antt =====
-- Witnesses of the theorems on the rows of a query, with a server that counts its open results and
-- the rows that are left.
use gxmis_plugin.Common.{
  ℕ, zero, suc, ◌-◌, true, Bytes, codes, List, [], ◌∷◌, Option, none, some, ok, ◌≡◌, refl,
}
use gxmis_plugin.Mysql.{Client}
use gxmis_plugin.Mysql.Connection.{MysqlConnection, new_connection}
use gxmis_plugin.Mysql.Data.{
  Results, MysqlData, open_query, store, next, more, store_next, destroy, add_values,
}
use gxmis_plugin.Mysql.Data.Held.{
  HeldLaws, DataStep, take_row, take_result, step, steps, open_query-steps-Held,
}

abbrev Server : Type 0
Server = ℕ × ℕ

abbrev counting : Client Server
counting = record {
  real_connect = λ w. (true, w);
  close = λ w. w;
  real_query = λ w q. (true, w);
  next_result = λ w. (true, w);
  affected_rows = λ w. 1;
  ping = λ w. (true, w);
}

abbrev fetched : ℕ → ℕ → Option (List (Option Bytes)) × Server
fetched open_results zero = (none, (open_results, zero))
fetched open_results (suc rows) = (some (some (codes "7") ∷ []), (open_results, rows))

abbrev numbers : Results Server
numbers = record {
  use_result = λ w. (some (codes "ID" ∷ []), (suc w.0, w.1));
  fetch_row = λ w. fetched (w.0) (w.1);
  free_result = λ w. (w.0 - 1, w.1);
}

fetched_keeps : (n rows : ℕ) → (fetched n rows).1.0 ≡ n
fetched_keeps n zero = refl
fetched_keeps n (suc rows) = refl

abbrev numbers-laws : HeldLaws counting numbers
numbers-laws = record {
  held = λ w. w.0;
  after_query = λ w q. refl;
  after_next = λ w. refl;
  after_use = λ w. refl;
  after_fetch = λ w. fetched_keeps (w.0) (w.1);
  after_free = λ w. refl;
}

abbrev connection : MysqlConnection
connection = record new_connection { mysql = true; conn = true }

abbrev ids : MysqlData
ids = record { has_result = true; has_conn = true; columns = codes "ID" ∷ [] }

abbrev uses : List DataStep
uses = take_row ∷ (take_result ∷ (take_row ∷ []))

uses_run :
    steps counting numbers numbers-laws uses
      ((open_query counting numbers (3, 5) connection []).0)
      ((open_query counting numbers (3, 5) connection []).1)
    ≡ ok ((4, 3), ids)
unfolding steps step open_query store next more store_next destroy add_values
uses_run = refl

open_query-steps-Held_example :
    numbers-laws.held (destroy counting numbers (4, 3) ids) ≡ numbers-laws.held (3, 5)
open_query-steps-Held_example =
    open_query-steps-Held counting numbers numbers-laws (3, 5) (4, 3) connection [] uses ids
      uses_run
