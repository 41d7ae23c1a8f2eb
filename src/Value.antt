-- ===== src/Value.antt =====
-- What keys hold and what calls answer: cache_cat/src/raft/types/core/value_object.rs,
-- response_value.rs, core.rs (MyValue) and the two fields of sorted_set.rs. An i64 is its 64 bits
-- as a number below 2 ^ 64, an f64 is its 64 bits. A collection behind an `Arc<Mutex<..>>` is its
-- content; `Array(None)` is `null_array`; a `HashMap` and a `HashSet` are listed in the order of a pass over them.
pub mod Number
pub mod Signed
pub mod Field
pub mod Double
pub mod Table
pub mod HashSet
pub mod ZSet
pub mod Print
pub mod Utf8
use cache_cat.Prelude.{ℕ, String, Bool, Option, List, Bytes}

pub data HashValue : Type 0 where
  str : Bytes → HashValue
  int : ℕ → HashValue

pub record SortedSet : Type 0 where
  pub tree : List (ℕ × Bytes)
  pub hash : List (Bytes × ℕ)

pub data ValueObject : Type 0 where
  int : ℕ → ValueObject
  string : Bytes → ValueObject
  list : List Bytes → ValueObject
  hash : List (Bytes × HashValue) → ValueObject
  z_set : SortedSet → ValueObject
  set : List Bytes → ValueObject

-- `version` is a u32 that grows with every update during a snapshot.
pub record MyValue : Type 0 where
  pub version : ℕ
  pub data_ : ValueObject

mutual
  pub data Value : Type 0 where
    simple_string : String → Value
    error : String → Value
    integer : ℕ → Value
    bulk_string : Option Bytes → Value
    array : Values → Value
    null_array : Value
    null : Value
    map : ValuePairs → Value
    set : Values → Value
    push : Values → Value
    boolean : Bool → Value
    double : ℕ → Value
    big_number : String → Value
    verbatim_string : String → Bytes → Value
    bulk_error : String → Value
    member_scores : List (Bytes × ℕ) → Value
    batch : Values → Value

  pub data Values : Type 0 where
    nil : Values
    more : Value → Values → Values

  pub data ValuePairs : Type 0 where
    nil_pairs : ValuePairs
    more_pairs : Value → Value → ValuePairs → ValuePairs

abbrev pub ok : Value
ok = Value.simple_string "OK"
