-- ===== src/Mysql/ConnectionPool/Ends.antt =====
-- The loop of `lockConnection` ends when the server is back.
use gxmis_plugin.Common.{
  ℕ, List, [], ◌∷◌, get_elem?_bound, set, some, ap, zero, suc, ◌<◌, true, false, ok, ◌≡◌, refl,
  arith, ◌∙◌, Bool-cases, inl, inr,
}
use gxmis_plugin.Mysql.{Client}
use gxmis_plugin.Mysql.Connection.{MysqlConnection, ping}
use gxmis_plugin.Mysql.ConnectionPool.{ConnectionPool, get_connection}
use gxmis_plugin.Mysql.ConnectionPool.Outage.{OutageLaws, connect-accepted, connect-refused}
use gxmis_plugin.Mysql.Pool.{MysqlConnPool, pick, try_each, is_alive, prepare, reconnect}
use gxmis_plugin.Mysql.Pool.Laws.{FirstFree, first_free, get_elem?-set}

set_again :
    (cs : List MysqlConnection) (i : ℕ) (d e : MysqlConnection) → set (set cs i d) i e ≡ set cs i e
set_again [] i d e = refl
set_again (x ∷ cs) zero d e = refl
set_again (x ∷ cs) (suc i) d e = ap (◌∷◌ x) (set_again cs i d e)

module _ {World : Type 0} (client : Client World) (laws : OutageLaws client) where
  open laws use {failures, after_ping, ping_answered, ping_lost}

  alive_kept : (w : World) (c : MysqlConnection) → failures ((is_alive client w c).1) ≡ failures w
  unfolding is_alive ping
  alive_kept w c = ground (arith, after_ping w)

  alive_back : (w : World) (c : MysqlConnection) → failures w ≡ 0 → (is_alive client w c).0 ≡ c.conn
  unfolding is_alive ping
  alive_back w c back = ground (arith, ping_answered w back)

  alive_lost :
      (w : World) (c : MysqlConnection) (k : ℕ)
      → failures w ≡ suc k
      → (is_alive client w c).0 ≡ false
  unfolding is_alive ping
  alive_lost w c k away = ground (arith, ping_lost w k away)

  reconnect-open :
      (fuel : ℕ) (w : World) (c : MysqlConnection)
      → failures w ≡ 0
      → c.conn ≡ true
      → reconnect client (suc fuel) w c ≡ ok ((is_alive client w c).1, c)
  unfolding reconnect
  reconnect-open fuel w c back opened = ground (arith, alive_back w c back, opened)

  -- A connection with a server that is back, and the same mutex.
  abbrev pub Ready : MysqlConnection → World → MysqlConnection → Type 0
  Ready c w' c' = (c'.conn ≡ true) × (c'.locked ≡ c.locked) × (failures w' ≡ 0)

  reconnect-Ready :
      (k fuel : ℕ) (w : World) (c : MysqlConnection)
      → failures w ≡ k
      → suc k < fuel
      → (w' : World) × (c' : MysqlConnection) × (reconnect client fuel w c ≡ ok (w', c'))
        × Ready c w' c'
  unfolding reconnect
  reconnect-Ready zero zero w c away h = absurd (omega arith)
  reconnect-Ready zero (suc zero) w c away h = absurd (omega arith)
  reconnect-Ready zero (suc (suc fuel)) w c away h =
      let w1 = (is_alive client w c).1 in
      let kept = alive_kept w c ∙ away in
      elim (Bool-cases c.conn) [
        | inl opened ↦ (w1, c, ground (arith, alive_back w c away, opened), (opened, refl, kept))
        | inr shut ↦
            let (w2, c2, accepted, opened, mutex, back) = connect-accepted client laws w1 c kept in
            (
              (is_alive client w2 c2).1,
              c2,
              ground (
                arith,
                alive_back w c away,
                shut,
                accepted,
                reconnect-open fuel w2 c2 back opened,
              ),
              (opened, mutex, alive_kept w2 c2 ∙ back),
            )
      ]
  reconnect-Ready (suc k) zero w c away h = absurd (omega arith)
  reconnect-Ready (suc k) (suc fuel) w c away h =
      let w1 = (is_alive client w c).1 in
      let (w2, c2, refused, shut, mutex, fewer) =
        connect-refused client laws w1 c k (alive_kept w c ∙ away) in
      let (w', c', ends, (opened, mutex', back)) =
        reconnect-Ready k fuel w2 c2 fewer (omega arith) in
      (w', c', ground (arith, alive_lost w c k away, refused, ends), (opened, mutex' ∙ mutex, back))

  prepare-lost :
      (k fuel : ℕ) (w : World) (c : MysqlConnection)
      → failures w ≡ k
      → suc k < fuel
      → (is_alive client w c).0 ≡ false
      → (w' : World) × (c' : MysqlConnection) × (prepare client fuel w c ≡ ok (w', c'))
        × Ready c w' c'
  unfolding prepare
  prepare-lost zero fuel w c away h lost =
      let w1 = (is_alive client w c).1 in
      let (w2, c2, accepted, opened, mutex, back) =
        connect-accepted client laws w1 c (alive_kept w c ∙ away) in
      let (w', c', ends, (opened', mutex', back')) = reconnect-Ready zero fuel w2 c2 back h in
      (w', c', ground (arith, lost, accepted, ends), (opened', mutex' ∙ mutex, back'))
  prepare-lost (suc k) fuel w c away h lost =
      let w1 = (is_alive client w c).1 in
      let (w2, c2, refused, shut, mutex, fewer) =
        connect-refused client laws w1 c k (alive_kept w c ∙ away) in
      let (w', c', ends, (opened', mutex', back')) =
        reconnect-Ready k fuel w2 c2 fewer (omega arith) in
      (w', c', ground (arith, lost, refused, ends), (opened', mutex' ∙ mutex, back'))

  pub prepare-Ready :
      (fuel : ℕ) (w : World) (c : MysqlConnection)
      → suc (failures w) < fuel
      → (w' : World) × (c' : MysqlConnection) × (prepare client fuel w c ≡ ok (w', c'))
        × Ready c w' c'
  unfolding prepare
  prepare-Ready fuel w c h =
      let w1 = (is_alive client w c).1 in
      let kept = alive_kept w c in
      elim (Bool-cases ((is_alive client w c).0)) [
        | inl alive ↦
            let (w', c', ends, ready) = reconnect-Ready (failures w) fuel w1 c kept h in
            (w', c', ground (arith, alive, ends), ready)
        | inr lost ↦ prepare-lost (failures w) fuel w c refl h lost
      ]

  -- Where a connection of the pool is free, and the server refuses some more attempts and then answers,
  -- `get_connection` ends: it takes the first free connection, which is then open and held, leaves all
  -- others as they are, and finds the server back. The loop needs two rounds more than the server
  -- refuses attempts.
  pub get_connection-Ready :
      (fuel : ℕ) (others : MysqlConnPool → MysqlConnPool) (w : World) (p : ConnectionPool) (i : ℕ)
      (d : MysqlConnection)
      → try_each p.m_pool.conn_list ≡ some (i, d)
      → suc (failures w) < fuel
      → (w' : World) × (c' : MysqlConnection) × (get_connection client fuel others w p
          ≡ ok (
            i,
            w',
            record p { m_pool = record (p.m_pool) { conn_list = set p.m_pool.conn_list i c' } },
          ))
        × FirstFree p.m_pool.conn_list i d
        × (c'.conn ≡ true)
        × (c'.locked ≡ true)
        × (failures w' ≡ 0)
  unfolding get_connection pick
  get_connection-Ready fuel others w p i d found h =
      let cs = p.m_pool.conn_list in
      let first = first_free cs i d found in
      let (c, here, free, taken, before) = first in
      let (w', c', ends, (opened, mutex, back)) =
        prepare-Ready fuel w (record d { locked = true }) h in
      (
        w',
        c',
        ground (
          arith,
          found,
          get_elem?_bound cs i c here,
          get_elem?-set cs i c d here,
          ends,
          set_again cs i d c',
        ),
        first,
        opened,
        mutex,
        back,
      )
