-- ===== src/Reader/State.antt =====
-- read.h and the first functions of read.c: reply types, errors, tasks, the reader, and how an
-- error is recorded.
use multiplexing_hiredis.Common.{
  ℕ, ◌+◌, ◌%◌, ◌/◌, Bool, true, false, ◌&&◌, Option, none, some, List, [], ◌∷◌, ◌++◌, ltb, leb,
  ◌==◌, if◌then◌else◌, Bytes, codes, length, take,
}
use multiplexing_hiredis.Common.Int.{ℤ}

-- REDIS_REPLY_*
pub data ReplyType : Type 0 where
  string array integer nil status error : ReplyType

-- REDIS_ERR_*, and 0
pub data ErrorCode : Type 0 where
  no_error io other eof protocol oom : ErrorCode

abbrev pub is_error : ErrorCode → Bool
is_error no_error = false
is_error _ = true

-- REDIS_OK and REDIS_ERR
pub data Status : Type 0 where
  redis_ok redis_err : Status

-- A read task. The type -1 is `none`; `obj` NULL is `none`. The `parent` pointer is not a field:
-- the parent of a task is the entry below it on the stack. `privdata` is not modelled.
pub record ReadTask (Obj : Type 0) : Type 0 where
  pub type : Option ReplyType
  pub elements : ℤ
  pub idx : ℤ
  pub obj : Option Obj

-- What a call that makes a reply object gives: the object or NULL, or an access outside an
-- object that ends the process.
pub data Created (Obj Store : Type 0) : Type 0 where
  created : Obj → Store → Created Obj Store
  null_object : Store → Created Obj Store
  fault : Created Obj Store

-- The functions that make reply objects. A task is handed over with its chain of parents, as the
-- first entry of a list; `Store` is the memory that these functions change.
pub record ReplyObjectFunctions (Obj Store : Type 0) : Type 0 where
  pub create_string : List (ReadTask Obj) → Bytes → Store → Created Obj Store
  pub create_array : List (ReadTask Obj) → ℤ → Store → Created Obj Store
  pub create_integer : List (ReadTask Obj) → ℤ → Store → Created Obj Store
  pub create_nil : List (ReadTask Obj) → Store → Created Obj Store
  pub free_object : Obj → Store → Store

-- The type code of the task on top, which stands for the object where a function is NULL.
abbrev type_code : List (ReadTask ReplyType) → ReplyType
type_code [] = nil
type_code (cur ∷ parents) = elim cur.type [ none ↦ nil | some t ↦ t ]

-- A NULL `fn`: the object is the type code, as a pointer.
unfoldable pub null_functions : ReplyObjectFunctions ReplyType (Unit {0})
null_functions = record {
  create_string = λ tasks str store. created (type_code tasks) store;
  create_array = λ tasks elements store. created array store;
  create_integer = λ tasks value store. created integer store;
  create_nil = λ tasks store. created nil store;
  free_object = λ obj store. store;
}

-- The reader. `rstack` holds the entries 0 to `ridx` of the source's array, the top first, so
-- `ridx` is its length minus 1. `buf` is the content of the sds string, and [] where it is NULL.
pub record ReaderState (Obj Store : Type 0) : Type 0 where
  pub err : ErrorCode
  pub errstr : Bytes
  pub buf : Bytes
  pub pos : ℕ
  pub len : ℕ
  pub maxbuf : ℕ
  pub rstack : List (ReadTask Obj)
  pub reply : Option Obj
  pub store : Store

-- `memcpy` of a message into `char errstr[128]`, cut at 127 bytes.
abbrev pub clip_errstr : Bytes → Bytes
clip_errstr str = take (if ltb (length str) 127 then length str else 127) str

-- A lower case hexadecimal digit.
abbrev hex_digit : ℕ → ℕ
hex_digit d = if ltb d 10 then 48 + d else 87 + d

-- isprint of the C locale
abbrev is_print : ℕ → Bool
is_print c = leb 32 c && leb c 126

-- Bytes between double quotes.
abbrev quoted : Bytes → Bytes
quoted s = 34 ∷ s ++ (34 ∷ [])

-- chrtos, for a buffer large enough
unfoldable pub chrtos : ℕ → Bytes
chrtos c =
    if c == 92
    then quoted (92 ∷ c ∷ [])
    else if c == 34
    then quoted (92 ∷ c ∷ [])
    else if c == 10
    then quoted (codes "\\n")
    else if c == 13
    then quoted (codes "\\r")
    else if c == 9
    then quoted (codes "\\t")
    else if c == 7
    then quoted (codes "\\a")
    else if c == 8
    then quoted (codes "\\b")
    else if is_print c
    then quoted (c ∷ [])
    else quoted (92 ∷ 120 ∷ hex_digit (c / 16 % 16) ∷ hex_digit (c % 16) ∷ [])

module _ {Obj Store : Type 0} (fns : ReplyObjectFunctions Obj Store) where
  -- `freeObject` on the reply at hand, if there is one
  unfoldable pub free_reply : Option Obj → Store → Store
  free_reply none store = store
  free_reply (some obj) store = fns.free_object obj store

  -- __redisReaderSetError, with functions of which `freeObject` is set, as in the default ones
  unfoldable pub set_error : ErrorCode → Bytes → ReaderState Obj Store → ReaderState Obj Store
  unfolding free_reply
  set_error type str r = record r {
    store = free_reply r.reply r.store;
    reply = none;
    buf = [];
    pos = 0;
    len = 0;
    rstack = [];
    err = type;
    errstr = clip_errstr str;
  }

  -- __redisReaderSetErrorProtocolByte
  unfoldable pub set_error_protocol_byte : ℕ → ReaderState Obj Store → ReaderState Obj Store
  unfolding set_error
  set_error_protocol_byte byte =
      set_error protocol
        (codes "Protocol error, got " ++ (chrtos byte ++ codes " as reply type byte"))

  -- __redisReaderSetErrorOOM
  unfoldable pub set_error_oom : ReaderState Obj Store → ReaderState Obj Store
  unfolding set_error
  set_error_oom = set_error oom (codes "Out of memory")
