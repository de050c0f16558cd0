-- ===== src/Mysql/Pool/Laws.antt =====
-- What `lockConnection` picks, and that a release gives the pool back.
use gxmis_plugin.Common.{
  ℕ, zero, suc, ◌<◌, true, false, List, [], ◌∷◌, length, get_elem?, get_elem?_bound, set,
  length-set, none, some, Option-cases, inl, inr, ok, ◌≡◌, refl, ap, ◌∙◌, arith, All, take,
}
use gxmis_plugin.Mysql.{Client}
use gxmis_plugin.Mysql.Connection.{MysqlConnection, unlock}
use gxmis_plugin.Mysql.Pool.{MysqlConnPool, Picked, try_each, pick, next_index, release_connection}

abbrev pub Taken : MysqlConnection → Type 0
Taken c = c.locked ≡ true

-- The first free connection of a list, at `i`, and that connection with its mutex taken.
abbrev pub FirstFree : List MysqlConnection → ℕ → MysqlConnection → Type 0
FirstFree cs i d =
    (c : MysqlConnection) × (get_elem? cs i ≡ some c)
    × (c.locked ≡ false)
    × (d ≡ record c { locked = true })
    × All Taken (take i cs)

pub first_free :
    (cs : List MysqlConnection) (i : ℕ) (d : MysqlConnection)
    → try_each cs ≡ some (i, d)
    → FirstFree cs i d
unfolding try_each
first_free [] i d e = cc
first_free (c ∷ cs) zero d e = elim (Option-cases (try_each cs)) [
  | inl missing ↦ (c, refl, ground arith, ground arith, tt)
  | inr found ↦ (c, refl, ground arith, ground arith, tt)
]
first_free (c ∷ cs) (suc i) d e = elim (Option-cases (try_each cs)) [
  | inl missing ↦ absurd (ground arith)
  | inr ((j, d'), found) ↦
      let (c', here, free, taken, before) = first_free cs i d (ground arith) in
      (c', here, free, taken, (ground arith, before))
]

All-Taken : (cs : List MysqlConnection) → try_each cs ≡ none → All Taken cs
unfolding try_each
All-Taken [] e = tt
All-Taken (c ∷ cs) e = elim (Option-cases (try_each cs)) [
  | inl missing ↦ (ground arith, All-Taken cs missing)
  | inr found ↦ ground arith
]

-- The choice of a connection: the first free one, or the next in turn when every one is held.
pub data Choice (p : MysqlConnPool) : Picked → Type 0 where
  free_one :
      (i : ℕ) (d : MysqlConnection)
      → FirstFree p.conn_list i d
      → Choice p
          (record { place = i; waits = false; pool = record p { conn_list = set p.conn_list i d } })
  in_turn :
      (next : ℕ)
      → All Taken p.conn_list
      → (suc p.conn_index < length p.conn_list → next ≡ suc p.conn_index)
      → (suc p.conn_index ≡ length p.conn_list → next ≡ 0)
      → Choice p
          (record { place = p.conn_index; waits = true; pool = record p { conn_index = next } })

next_index_up :
    (p : MysqlConnPool) → suc p.conn_index < length p.conn_list → next_index p ≡ suc p.conn_index
next_index_up p h = ground arith

next_index_over : (p : MysqlConnPool) → suc p.conn_index ≡ length p.conn_list → next_index p ≡ 0
next_index_over p h = ground arith

-- In a pool with its index in range, `lockConnection` finds a connection: the first whose mutex is
-- free, or, when all are held, the one at the index, which then goes on by one and from the end
-- back to 0. The place and the new index are in range.
pub pick-Choice :
    (p : MysqlConnPool)
    → p.conn_index < length p.conn_list
    → (r : Picked) × (pick p ≡ ok r)
      × Choice p r
      × (r.place < length p.conn_list)
      × (r.pool.conn_index < length r.pool.conn_list)
unfolding pick
pick-Choice p h = elim (Option-cases (try_each p.conn_list)) [
  | inl missing ↦ (
    record { place = p.conn_index; waits = true; pool = record p { conn_index = next_index p } },
    ground arith,
    in_turn (next_index p) (All-Taken p.conn_list missing) (next_index_up p) (next_index_over p),
    h,
    ground arith,
  )
  | inr ((i, d), found) ↦
      let first = first_free p.conn_list i d found in
      (
        record { place = i; waits = false; pool = record p { conn_list = set p.conn_list i d } },
        ground arith,
        free_one i d first,
        get_elem?_bound p.conn_list i (first.0) (first.1),
        omega (arith, length-set p.conn_list i d),
      )
]

pub get_elem?-set :
    (cs : List MysqlConnection) (i : ℕ) (c d : MysqlConnection)
    → get_elem? cs i ≡ some c
    → get_elem? (set cs i d) i ≡ some d
get_elem?-set [] i c d e = cc
get_elem?-set (x ∷ cs) zero c d e = refl
get_elem?-set (x ∷ cs) (suc i) c d e = get_elem?-set cs i c d e

set-set :
    (cs : List MysqlConnection) (i : ℕ) (c d : MysqlConnection)
    → get_elem? cs i ≡ some c
    → set (set cs i d) i c ≡ cs
set-set [] i c d e = refl
set-set (x ∷ cs) zero c d e = ground arith
set-set (x ∷ cs) (suc i) c d e = ap (◌∷◌ x) (set-set cs i c d e)

release_taken :
    {World : Type 0} (client : Client World) (w : World) (p : MysqlConnPool) (i : ℕ)
    (d : MysqlConnection)
    → FirstFree p.conn_list i d
    → release_connection client w (record p { conn_list = set p.conn_list i d }) i false ≡ ok (w, p)
unfolding release_connection unlock
release_taken client w p i d (c, here, free, taken, before) =
    let stored = get_elem?-set p.conn_list i c d here in
    let released : record d { locked = false } ≡ c = ground arith in
    let back : set (set p.conn_list i d) i (record d { locked = false }) ≡ p.conn_list =
      ap (set (set p.conn_list i d) i) released ∙ set-set p.conn_list i c d here in
    ground (arith, stored, back)

-- A connection that was free when it was picked, and that is released without being closed, leaves
-- the list of connections as it was before, and the world too.
release_connection-pick :
    {World : Type 0} (client : Client World) (w : World) (p : MysqlConnPool) (r : Picked)
    → pick p ≡ ok r
    → r.waits ≡ false
    → release_connection client w r.pool r.place false ≡ ok (w, p)
unfolding pick
release_connection-pick client w p r e free = elim (Option-cases (try_each p.conn_list)) [
  | inl missing ↦ absurd (ground arith)
  | inr ((i, d), found) ↦
      let picked : r ≡ record {
        place = i;
        waits = false;
        pool = record p { conn_list = set p.conn_list i d };
      } =
        ground arith in
      ap (λ (q : Picked). release_connection client w q.pool q.place false) picked
      ∙ release_taken client w p i d (first_free p.conn_list i d found)
]
