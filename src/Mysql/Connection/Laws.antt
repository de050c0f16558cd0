-- ===== src/Mysql/Connection/Laws.antt =====
-- The handles of a connection, and the statements that `execute` sends.
use gxmis_plugin.Common.{
  ℕ, zero, Bool, true, false, Bool-cases, inl, inr, Bytes, codes, List, [], ◌∷◌, ◌++◌, append_assoc,
  ok, ◌≡◌, refl, ap, ◌∙◌, arith,
}
use gxmis_plugin.Mysql.{Client}
use gxmis_plugin.Mysql.Connection.{
  MysqlConnection, disconnect, connect, exec, execute, transaction_start, transaction_commit,
}

-- Five statements sent one after the other.
five :
    (s0 s1 s2 s3 s4 s5 : List Bytes) (a b c d e : Bytes)
    → s1 ≡ s0 ++ (a ∷ [])
    → s2 ≡ s1 ++ (b ∷ [])
    → s3 ≡ s2 ++ (c ∷ [])
    → s4 ≡ s3 ++ (d ∷ [])
    → s5 ≡ s4 ++ (e ∷ [])
    → s5 ≡ s0 ++ (a ∷ b ∷ c ∷ d ∷ e ∷ [])
five s0 s1 s2 s3 s4 s5 a b c d e h1 h2 h3 h4 h5 =
    h5
    ∙ ap (λ z. z ++ (e ∷ []))
        (h4
          ∙ ap (λ z. z ++ (d ∷ []))
              (h3 ∙ ap (λ z. z ++ (c ∷ [])) (h2 ∙ ap (λ z. z ++ (b ∷ [])) h1)))
    ∙ simp append_assoc refl

module _ {World : Type 0} (client : Client World) where
  open client use {real_query, real_connect}

  exec_single :
      (fuel : ℕ) (w : World) (c : MysqlConnection) (query : Bytes)
      → c.conn ≡ true
      → (done : Bool) × (rows : ℕ) × (exec client fuel w c query false
          ≡ ok (done, rows, (real_query w query).1))
  unfolding exec
  exec_single fuel w c query opened = elim (Bool-cases ((real_query w query).0)) [
    | inl done ↦ (true, client.affected_rows ((real_query w query).1), ground arith)
    | inr failed ↦ (false, 0, ground arith)
  ]

  -- After `connect`, both handles are set or neither is; they are set exactly when it returns true,
  -- and the mutex is as it was. (Before the call, both handles were set or neither.)
  connect_handles :
      (w : World) (c : MysqlConnection)
      → c.mysql ≡ c.conn
      → (opened : Bool) × (w' : World) × (c' : MysqlConnection) × (connect client w c
          ≡ ok (opened, w', c'))
        × (c'.conn ≡ opened)
        × (c'.mysql ≡ c'.conn)
        × (c'.locked ≡ c.locked)
  unfolding connect disconnect
  connect_handles w c paired =
      let (was_open, w1, c1) = disconnect client w c in
      let (opened, w2) = real_connect w1 in
      let c2 : MysqlConnection = record c1 { mysql = true; conn = true } in
      let c0 : MysqlConnection = record c1 { mysql = false; conn = false } in
      let names = exec_single zero w2 c2 (codes "SET NAMES utf8mb4") refl in
      let w3 = (real_query w2 (codes "SET NAMES utf8mb4")).1 in
      let zone = exec_single zero w3 c2 (codes "SET time_zone = '+00:00'") refl in
      elim (Bool-cases opened) [
        | inl success ↦ (
          true,
          (real_query w3 (codes "SET time_zone = '+00:00'")).1,
          c2,
          ground (arith, names, zone),
          refl,
          refl,
          ground arith,
        )
        | inr failure ↦ (false, client.close w2, c0, ground arith, refl, refl, ground arith)
      ]

  -- `sent` lists the statements that the server was sent.
  module _ (sent : World → List Bytes)
      (sent-real_query : (w : World) (q : Bytes)
        → sent ((real_query w q).1) ≡ sent w ++ (q ∷ [])) where
    -- On an open connection that runs statements in transactions, `execute` sends the statement
    -- between the two that open a transaction and the two that commit it, and it commits also when
    -- the statement failed.
    pub sent-execute :
        (fuel : ℕ) (w : World) (c : MysqlConnection) (query : Bytes)
        → c.conn ≡ true
        → c.transaction_on_execute ≡ true
        → (done : Bool) × (rows : ℕ) × (w' : World) × (execute client fuel w c query false
            ≡ ok (done, rows, w'))
          × (sent w'
              ≡ sent w
                ++ (codes "SET AUTOCOMMIT=0"
                    ∷ codes "BEGIN"
                    ∷ query
                    ∷ codes "COMMIT"
                    ∷ codes "SET AUTOCOMMIT=1"
                    ∷ []))
    unfolding execute transaction_start transaction_commit
    sent-execute fuel w c query opened in_transaction =
        let w1 = (real_query w (codes "SET AUTOCOMMIT=0")).1 in
        let w2 = (real_query w1 (codes "BEGIN")).1 in
        let w3 = (real_query w2 query).1 in
        let w4 = (real_query w3 (codes "COMMIT")).1 in
        let w5 = (real_query w4 (codes "SET AUTOCOMMIT=1")).1 in
        let e1 = exec_single zero w c (codes "SET AUTOCOMMIT=0") opened in
        let e2 = exec_single zero w1 c (codes "BEGIN") opened in
        let e3 = exec_single fuel w2 c query opened in
        let e4 = exec_single zero w3 c (codes "COMMIT") opened in
        let e5 = exec_single zero w4 c (codes "SET AUTOCOMMIT=1") opened in
        (
          e3.0,
          e3.1,
          w5,
          ground (arith, e1.2, e2.2, e3.2, e4.2, e5.2),
          five (sent w) (sent w1) (sent w2) (sent w3) (sent w4) (sent w5) _ _ _ _ _
              (sent-real_query w _) (sent-real_query w1 _) (sent-real_query w2 _)
              (sent-real_query w3 _) (sent-real_query w4 _),
        )
