-- ===== src/BTree/Store.antt =====
-- The pages of the index of src/b_tree.c, and the handlers that the code is given.
--
-- The comparison and the two handlers read and change the tables of the caller, which are the state
-- of `Handlers`. get_page of a page that holds another struct is the result `none`.
use simple_redis_database.Common.{ℕ, Option, none, some}
use simple_redis_database.Common.Run.{Run, ◌>>=◌, lift}
use simple_redis_database.PageStore
use simple_redis_database.PageStore.{Pages}
use simple_redis_database.Rid.{Rid}
use simple_redis_database.Str.{Sign}
use simple_redis_database.BTree.{BNode, find_index}

pub record BCtrlBlock : Type 0 where
  pub root_node : ℕ
  pub free_node_head : ℕ

pub data BPage : Type 0 where
  control : BCtrlBlock → BPage
  node : BNode → BPage

pub record Handlers : Type 1 where
  pub State : Type 0
  pub cmp : State → Rid → Rid → ℕ → ℕ → Option Sign
  pub insert_handler : State → Rid → ℕ → Option (Rid × State)
  pub delete_handler : State → Rid → Option State

pub record Tree (S : Type 0) : Type 0 where
  pub pool : Pages BPage
  pub tables : S

abbrev pub as_control : BPage → Option BCtrlBlock
as_control (control c) = some c
as_control (node b) = none

abbrev pub as_node : BPage → Option BNode
as_node (control c) = none
as_node (node b) = some b

module _ {S : Type 0} where
  -- A step of the pool.
  abbrev back : {A : Type 0} → Tree S → Option (A × Pages BPage) → Option (A × Tree S)
  back t none = none
  back t (some (a, pool)) = some (a, record t { pool = pool })

  abbrev pub on_pool : {A : Type 0} → Run (Pages BPage) A → Run (Tree S) A
  on_pool m t = back t (m t.pool)

  unfoldable pub get_page : ℕ → Run (Tree S) (Unit {0})
  get_page addr = on_pool (PageStore.pin_page addr)

  unfoldable pub release : ℕ → Run (Tree S) (Unit {0})
  release addr = on_pool (PageStore.release_page addr)

  unfoldable pub read_control : Run (Tree S) BCtrlBlock
  read_control = on_pool (PageStore.load 0) >>= λ p. lift (as_control p)

  unfoldable pub write_control : BCtrlBlock → Run (Tree S) (Unit {0})
  write_control c = on_pool (PageStore.store 0 (control c))

  unfoldable pub read_node : ℕ → Run (Tree S) BNode
  read_node addr = on_pool (PageStore.load addr) >>= λ p. lift (as_node p)

  unfoldable pub write_node : ℕ → BNode → Run (Tree S) (Unit {0})
  write_node addr b = on_pool (PageStore.store addr (node b))

  unfoldable pub append_control : BCtrlBlock → Run (Tree S) (Unit {0})
  append_control c = on_pool (PageStore.append_page (control c))

  unfoldable pub append_node : BNode → Run (Tree S) (Unit {0})
  append_node b = on_pool (PageStore.append_page (node b))

  unfoldable pub file_length : Run (Tree S) ℕ
  file_length = on_pool PageStore.file_length

module _ (h : Handlers) where
  open h use {State, cmp, insert_handler, delete_handler}

  unfoldable pub find : BNode → Rid → ℕ → Run (Tree State) ℕ
  unfolding find_index
  find bnode rid rid_leaf t = lift (find_index bnode rid rid_leaf (cmp t.tables)) t

  unfoldable pub copy_key : Rid → ℕ → Run (Tree State) Rid
  copy_key rid leaf t = elim (insert_handler t.tables rid leaf) [
    | none ↦ none
    | some (key, tables) ↦ some (key, record t { tables = tables })
  ]

  unfoldable pub drop_key : Rid → Run (Tree State) (Unit {0})
  drop_key rid t = elim (delete_handler t.tables rid) [
    | none ↦ none
    | some tables ↦ some (tt, record t { tables = tables })
  ]
