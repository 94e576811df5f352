-- ===== src/Value.antt =====
-- The dynamic values that the program passes around: JSON columns, parameters, YAML documents.
use terramate_api_wrapper.Base.{String, Bool, false, Option, none, some}
use terramate_api_wrapper.Base.{◌==◌, string_eq, if◌then◌else◌}

mutual
  -- `str` is a plain string and `quoted` a `yaml_util.QuotedStr`; a number is kept as Python
  -- prints it. A key of a dict is a text, with whether it is a QuotedStr: that equals and hashes as its text,
  -- so that no look-up tells the two apart, and the key that is there first is kept.
  pub data Value : Type 0 where
    null : Value
    bool : Bool → Value
    number : String → Value
    str : String → Value
    quoted : String → Value
    list : Items → Value
    dict : Fields → Value

  pub data Items : Type 0 where
    nil : Items
    cons : Value → Items → Items

  pub data Fields : Type 0 where
    empty : Fields
    entry : Bool → String → Value → Fields → Fields

abbrev pub field : String → Value → Fields → Fields
field k v d = entry false k v d

-- `d.get(k)`
abbrev pub get : String → Fields → Option Value
get k empty = none
get k (entry q j v d) = if j == k then some v else get k d

-- `d[k] = v`, for a key that is a QuotedStr or not: in place, with the key that is there, and else at the end.
abbrev pub put_key : Bool → String → Value → Fields → Fields
put_key is_quoted k v empty = entry is_quoted k v empty
put_key is_quoted k v (entry q j w d) =
    if j == k then entry q j v d else entry q j w (put_key is_quoted k v d)

abbrev pub put : String → Value → Fields → Fields
put k v d = put_key false k v d
