-- ===== src/Mysql/Data/Held.antt =====
-- The results that the code holds open in the client library.
use gxmis_plugin.Common.{
  ℕ, suc, ◌-◌, true, false, Bytes, List, [], ◌∷◌, Option, none, some, Result, Result-cases,
  Option-cases, Bool-cases, inl, inr, codes, ok, ◌>>=◌, ◌≡◌, arith, if◌then◌else◌,
}
use gxmis_plugin.Common.Int.{ℤ, pos}
use gxmis_plugin.Mysql.{Client, DbError}
use gxmis_plugin.Mysql.Connection.{MysqlConnection, MysqlRow}
use gxmis_plugin.Mysql.Data.{
  Results, MysqlData, destroy, store, next, store_next, more, open_query, last_insert_id, new_data,
  id_of, add_values,
}

-- What the client library's documentation says: how many results are open after each call.
pub record HeldLaws {World : Type 0} (client : Client World) (results : Results World)
    : Type 0 where
  pub held : World → ℕ
  pub after_query : (w : World) (q : Bytes) → held ((client.real_query w q).1) ≡ held w
  pub after_next : (w : World) → held ((client.next_result w).1) ≡ held w
  pub after_use :
      (w : World)
      → held ((results.use_result w).1) ≡ elim (results.use_result w).0 as (λ found. ℕ) [
        | none ↦ held w
        | some names ↦ suc (held w)
      ]
  pub after_fetch : (w : World) → held ((results.fetch_row w).1) ≡ held w
  pub after_free : (w : World) → held (results.free_result w) ≡ held w - 1

-- A use of the rows: the next row, or the next result.
pub data DataStep : Type 0 where
  take_row take_result : DataStep

module _ {World : Type 0} (client : Client World) (results : Results World)
    (laws : HeldLaws client results) where
  open laws use {held, after_query, after_next, after_use, after_fetch, after_free}

  unfoldable pub step : DataStep → World → MysqlData → Result DbError (World × MysqlData)
  step take_row w d = do (row, w') ← next client results w d; ok (w', d)
  step take_result w d = let (another, w', d') = more client results w d in ok (w', d')

  unfoldable pub steps : List DataStep → World → MysqlData → Result DbError (World × MysqlData)
  steps [] w d = ok (w, d)
  steps (s ∷ ss) w d = do (w', d') ← step s w d; steps ss w' d'

  -- The data holds its result and no other.
  abbrev Holds : ℕ → World → MysqlData → Type 0
  Holds n w d = held w ≡ (if d.has_result then suc n else n)

  destroy-Holds :
      (n : ℕ) (w : World) (d : MysqlData) → Holds n w d → held (destroy client results w d) ≡ n
  unfolding destroy
  destroy-Holds n w d h = ground (arith, after_free w)

  store-Holds :
      (w : World) (d : MysqlData)
      → let (stored, w', d') = store client results w d in Holds (held w) w' d'
  unfolding store
  store-Holds w d = ground (arith, after_use w)

  more-Holds :
      (n : ℕ) (w : World) (d : MysqlData)
      → Holds n w d
      → let (another, w', d') = more client results w d in Holds n w' d'
  unfolding more store_next
  more-Holds n w d h =
      let w1 = destroy client results w d in
      let freed = record d { has_result = false; columns = [] } in
      ground
        (arith, destroy-Holds n w d h, after_next w1, store-Holds ((client.next_result w1).1) freed)

  next-Holds :
      (n : ℕ) (w w' : World) (d : MysqlData) (row : Option MysqlRow)
      → Holds n w d
      → next client results w d ≡ ok (row, w')
      → Holds n w' d
  unfolding next
  next-Holds n w w' d row h e = ground (arith, after_fetch w)

  open_query-Holds :
      (w : World) (c : MysqlConnection) (q : Bytes)
      → let (w', d) = open_query client results w c q in Holds (held w) w' d
  unfolding open_query
  open_query-Holds w c q =
      let w1 = (client.real_query w q).1 in ground (arith, after_query w q, store-Holds w1 new_data)

  step-Holds :
      (n : ℕ) (s : DataStep) (w w' : World) (d d' : MysqlData)
      → Holds n w d
      → step s w d ≡ ok (w', d')
      → Holds n w' d'
  unfolding step
  step-Holds n take_row w w' d d' h e = elim (Result-cases (next client results w d)) [
    | inl ((row, w''), taken) ↦ ground (arith, next-Holds n w w'' d row h taken)
    | inr (bad, failed) ↦ absurd (ground arith)
  ]
  step-Holds n take_result w w' d d' h e = ground (arith, more-Holds n w d h)

  steps-Holds :
      (n : ℕ) (ss : List DataStep) (w w' : World) (d d' : MysqlData)
      → Holds n w d
      → steps ss w d ≡ ok (w', d')
      → Holds n w' d'
  unfolding steps
  steps-Holds n [] w w' d d' h e = ground arith
  steps-Holds n (s ∷ ss) w w' d d' h e = elim (Result-cases (step s w d)) [
    | inl ((w1, d1), done) ↦
        steps-Holds n ss w1 w' d1 d' (step-Holds n s w w1 d d1 h done) (ground arith)
    | inr (bad, failed) ↦ absurd (ground arith)
  ]

  -- A query that is opened, whose rows and further results are taken in any order, and whose data is
  -- then destroyed, leaves as many results open in the client library as before.
  pub open_query-steps-Held :
      (w w' : World) (c : MysqlConnection) (q : Bytes) (ss : List DataStep) (d' : MysqlData)
      → steps ss ((open_query client results w c q).0) ((open_query client results w c q).1)
        ≡ ok (w', d')
      → held (destroy client results w' d') ≡ held w
  open_query-steps-Held w w' c q ss d' e =
      let (w1, d) = open_query client results w c q in
      destroy-Holds (held w) w' d' (steps-Holds (held w) ss w1 w' d d' (open_query-Holds w c q) e)

  next-ok :
      (w : World) (d : MysqlData)
      → d.has_result ≡ true
      → (row : Option MysqlRow) × (w' : World) × (next client results w d ≡ ok (row, w'))
  unfolding next
  next-ok w d has = elim (Option-cases ((results.fetch_row w).0)) [
    | inl e ↦ (none, (results.fetch_row w).1, ground arith)
    | inr (values, e) ↦
        (some (add_values d.columns values 0 []), (results.fetch_row w).1, ground arith)
  ]

  -- `lastInsertID` always ends with a number, and leaves no result open.
  last_insert_id-Held :
      (stoll : Bytes → Option ℤ) (w : World) (c : MysqlConnection)
      → (number : ℤ) × (w' : World) × (last_insert_id client results stoll w c ≡ ok (number, w'))
        × (held w' ≡ held w)
  unfolding last_insert_id
  last_insert_id-Held stoll w c =
      let q = codes "SELECT LAST_INSERT_ID() AS ID" in
      let (w1, d) = open_query client results w c q in
      let holds = open_query-Holds w c q in
      elim (Bool-cases d.has_result) [
        | inl has ↦
            let (row, w2, taken) = next-ok w1 d has in
            (
              id_of stoll row,
              destroy client results w2 d,
              ground arith,
              destroy-Holds (held w) w2 d (next-Holds (held w) w1 w2 d row holds taken),
            )
        | inr empty ↦
            (pos 0, destroy client results w1 d, ground arith, destroy-Holds (held w) w1 d holds)
      ]
