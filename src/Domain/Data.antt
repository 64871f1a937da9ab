-- ===== src/Domain/Data.antt =====
-- crates/core/src/value.rs. A `f64` is carried as its 64 bits: what compares two of them is a
-- parameter where it is used. A `BTreeMap` is a list of entries.
use ko_rkuma.Prelude.{ℕ, Bool, String, Option, none, some, ◌==◌, string_eq, if◌then◌else◌}

-- An `i64`: `negsuc n` is -(n + 1).
pub data ℤ : Type 0 where
  pos : ℕ → ℤ
  negsuc : ℕ → ℤ

mutual
  pub data Value : Type 0 where
    null : Value
    bool : Bool → Value
    int : ℤ → Value
    float : ℕ → Value
    str : String → Value
    list : Values → Value
    map : Fields → Value

  -- `Vec<Value>`
  pub data Values : Type 0 where
    nil : Values
    cons : Value → Values → Values

  -- `BTreeMap<String, Value>`
  pub data Fields : Type 0 where
    end : Fields
    field : String → Value → Fields → Fields

-- `BTreeMap::get`
unfoldable pub get_field : String → Fields → Option Value
get_field k end = none
get_field k (field j v fs) = if j == k then some v else get_field k fs
