-- ===== src/Mysql/ConnectionPool/Outage.antt =====
-- `connect` while the server is away, and when it is back.
use gxmis_plugin.Common.{
  ℕ, suc, Bool, true, false, Bytes, codes, if◌then◌else◌, ok, ◌≡◌, refl, arith, ◌∙◌,
}
use gxmis_plugin.Mysql.{Client}
use gxmis_plugin.Mysql.Connection.{MysqlConnection, connect, disconnect, exec}

-- A server that is away for some more attempts to connect, and then answers everything.
pub record OutageLaws {World : Type 0} (client : Client World) : Type 0 where
  pub failures : World → ℕ
  pub refused :
      (w : World) (k : ℕ)
      → failures w ≡ suc k
      → ((client.real_connect w).0 ≡ false) × (failures ((client.real_connect w).1) ≡ k)
  pub accepted :
      (w : World)
      → failures w ≡ 0
      → ((client.real_connect w).0 ≡ true) × (failures ((client.real_connect w).1) ≡ 0)
  pub after_close : (w : World) → failures (client.close w) ≡ failures w
  pub after_query : (w : World) (q : Bytes) → failures ((client.real_query w q).1) ≡ failures w
  pub after_ping : (w : World) → failures ((client.ping w).1) ≡ failures w
  pub ping_answered : (w : World) → failures w ≡ 0 → (client.ping w).0 ≡ true
  pub ping_lost : (w : World) (k : ℕ) → failures w ≡ suc k → (client.ping w).0 ≡ false

module _ {World : Type 0} (client : Client World) (laws : OutageLaws client) where
  open laws use {
    failures, refused, accepted, after_close, after_query, after_ping, ping_answered, ping_lost,
  }

  disconnect_keeps :
      (w : World) (c : MysqlConnection)
      → (failures ((disconnect client w c).1) ≡ failures w)
        × (((disconnect client w c).2).locked ≡ c.locked)
  unfolding disconnect
  disconnect_keeps w c = ground (arith, after_close w)

  exec_keeps :
      (w : World) (c : MysqlConnection) (q : Bytes)
      → c.conn ≡ true
      → (done : Bool) × (rows : ℕ) × (w' : World) × (exec client 0 w c q false
          ≡ ok (done, rows, w'))
        × (failures w' ≡ failures w)
  unfolding exec
  exec_keeps w c q opened =
      let (done, w') = client.real_query w q in
      (
        done,
        if done then client.affected_rows w' else 0,
        w',
        ground (arith, opened),
        after_query w q,
      )

  pub connect-refused :
      (w : World) (c : MysqlConnection) (k : ℕ)
      → failures w ≡ suc k
      → (w' : World) × (c' : MysqlConnection) × (connect client w c ≡ ok (false, w', c'))
        × (c'.conn ≡ false)
        × (c'.locked ≡ c.locked)
        × (failures w' ≡ k)
  unfolding connect
  connect-refused w c k away =
      let (was_open, w1, c1) = disconnect client w c in
      let (kept, mutex) = disconnect_keeps w c in
      let (closed, fewer) = refused w1 k (kept ∙ away) in
      let w2 = (client.real_connect w1).1 in
      (
        client.close w2,
        record c1 { mysql = false; conn = false },
        ground (arith, closed),
        refl,
        mutex,
        after_close w2 ∙ fewer,
      )

  pub connect-accepted :
      (w : World) (c : MysqlConnection)
      → failures w ≡ 0
      → (w' : World) × (c' : MysqlConnection) × (connect client w c ≡ ok (true, w', c'))
        × (c'.conn ≡ true)
        × (c'.locked ≡ c.locked)
        × (failures w' ≡ 0)
  unfolding connect
  connect-accepted w c back =
      let (was_open, w1, c1) = disconnect client w c in
      let (kept, mutex) = disconnect_keeps w c in
      let (opened, none_left) = accepted w1 (kept ∙ back) in
      let w2 = (client.real_connect w1).1 in
      let c2 : MysqlConnection = record c1 { mysql = true; conn = true } in
      let (a, i, w3, named, same3) = exec_keeps w2 c2 (codes "SET NAMES utf8mb4") refl in
      let (b, j, w4, zoned, same4) = exec_keeps w3 c2 (codes "SET time_zone = '+00:00'") refl in
      (w4, c2, ground (arith, opened, named, zoned), refl, mutex, same4 ∙ (same3 ∙ none_left))
