-- ===== src/Reader/Build.antt =====
-- What the reader makes of a value that was written by the protocol: the calls of the functions that
-- make replies, in the order in which the value is written.
pub mod Steps
pub mod Values
pub mod Replies
pub mod Stream
pub mod Fed
use multiplexing_hiredis.Common.{
  ℕ, zero, suc, ◌+◌, ◌^◌, ◌<◌, ◌≤◌, Bool, true, false, Option, none, some, List, [], ◌∷◌, Bytes,
  length,
}
use multiplexing_hiredis.Common.Int.{ℤ, pos, minus_one, suc_ℤ}
use multiplexing_hiredis.Reader.State.{
  ReplyType, string, array, integer, status, error, ReadTask, Created, created, null_object, fault,
  ReplyObjectFunctions,
}
use multiplexing_hiredis.Reader.Scan.Line.{NoCr, InRange}
use multiplexing_hiredis.Reader.Items.{fresh_task}
use multiplexing_hiredis.Resp.{Value, Items, count, no_items, item}

-- A value that the reader takes, `depth` levels below the root: no \r within a line, integers and
-- lengths in the range of their types, and no array below the seventh level.
unfoldable mutual
  pub IsReadable : ℕ → Value → Type 0
  IsReadable depth (Value.status s) = NoCr s
  IsReadable depth (Value.error s) = NoCr s
  IsReadable depth (Value.integer n) = InRange n
  IsReadable depth (Value.bulk s) = Unit
  IsReadable depth Value.nil_bulk = Unit
  IsReadable depth Value.nil_array = depth ≤ 7
  IsReadable depth (Value.array vs) = (depth ≤ 7) × (count vs < 2 ^ 31) × AllReadable (suc depth) vs

  pub AllReadable : ℕ → Items → Type 0
  AllReadable depth no_items = Unit
  AllReadable depth (item v vs) = IsReadable depth v × AllReadable depth vs

module _ {Obj : Type 0} where
  -- The task of a value when the value has been read, with its object.
  abbrev pub with_type : ReplyType → ReadTask Obj → ReadTask Obj
  with_type t cur = record cur { type = some t }

  -- The task of an array whose elements are read.
  abbrev pub parent_task : ReadTask Obj → Obj → ℕ → ReadTask Obj
  parent_task cur obj n = record cur { type = some array; elements = pos n; obj = some obj }

  abbrev pub settled : Value → ReadTask Obj → Obj → ReadTask Obj
  settled (Value.status s) cur obj = with_type status cur
  settled (Value.error s) cur obj = with_type error cur
  settled (Value.integer n) cur obj = with_type integer cur
  settled (Value.bulk s) cur obj = with_type string cur
  settled Value.nil_bulk cur obj = with_type string cur
  settled Value.nil_array cur obj = with_type array cur
  settled (Value.array no_items) cur obj = with_type array cur
  settled (Value.array (item v vs)) cur obj = parent_task cur obj (suc (count vs))

  -- The task of the next element.
  abbrev pub sibling : ReadTask Obj → ReadTask Obj
  sibling cur = record cur { type = none; elements = minus_one; idx = suc_ℤ cur.idx }

module _ {Obj Store : Type 0} (fns : ReplyObjectFunctions Obj Store) where
  -- The object of an array when its elements have been made.
  abbrev pub completed : Obj → Option Store → Created Obj Store
  completed obj none = fault
  completed obj (some store) = created obj store

  -- The calls for a value, and for the elements of an array from the task `cur` on: an array's own
  -- object is made before its elements. If a call fails so does the whole.
  unfoldable mutual
    pub built : Value → ReadTask Obj → List (ReadTask Obj) → Store → Created Obj Store
    built (Value.status s) cur parents store =
        fns.create_string (with_type status cur ∷ parents) s store
    built (Value.error s) cur parents store =
        fns.create_string (with_type error cur ∷ parents) s store
    built (Value.integer n) cur parents store =
        fns.create_integer (with_type integer cur ∷ parents) n store
    built (Value.bulk s) cur parents store =
        fns.create_string (with_type string cur ∷ parents) s store
    built Value.nil_bulk cur parents store = fns.create_nil (with_type string cur ∷ parents) store
    built Value.nil_array cur parents store = fns.create_nil (with_type array cur ∷ parents) store
    built (Value.array no_items) cur parents store =
        fns.create_array (with_type array cur ∷ parents) (pos 0) store
    built (Value.array (item v vs)) cur parents store =
        elim (fns.create_array (with_type array cur ∷ parents) (pos (suc (count vs))) store) [
          | created obj store₁ ↦ completed obj (
              built_items (item v vs) (fresh_task (pos 0))
                (parent_task cur obj (suc (count vs)) ∷ parents) store₁)
          | null_object _ ↦ fault
          | fault ↦ fault
        ]

    pub built_items : Items → ReadTask Obj → List (ReadTask Obj) → Store → Option Store
    built_items no_items cur parents store = some store
    built_items (item v vs) cur parents store = elim (built v cur parents store) [
      | created obj store₁ ↦ built_items vs (sibling (settled v cur obj)) parents store₁
      | null_object _ ↦ none
      | fault ↦ none
    ]
