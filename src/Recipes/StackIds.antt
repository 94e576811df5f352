-- ===== src/Recipes/StackIds.antt =====
-- server/recipes/stack_ids.py: the entry that a new stack gets in the stack ids block of a config file.
mod Aligned
mod Blocks
pub mod Entries
mod Registered
mod Again
mod Patched
pub mod Lookup
pub mod Laws
use terramate_api_wrapper.Base.{
  ℕ, zero, suc, ◌+◌, ◌-◌, String, ◌<>◌, Bool, true, false, not, Option, none, some, List, [], ◌∷◌,
  ◌++◌, map, first, any, position, take, drop, take_until, drop_until, length, leb, ◌==◌, nat_eq,
  string_eq, if◌then◌else◌,
}
use text.Mathlib.Text.{starts_with}
use terramate_api_wrapper.Base.Text.{strip, size, join, take_while, is_space}
use terramate_api_wrapper.Base.Lines.{splitlines, ends_with_newline}
use terramate_api_wrapper.Result.{Result, ok, err, value_error, type_error, ◌>>=◌}
use terramate_api_wrapper.Framework.{FileEdit, edit_text}
use terramate_api_wrapper.Recipes.ConfigLines.{
  Attribute, match_attribute, is_block_start, one_more, opened, closed,
}

pub record StackGroup : Type 0 where
  pub path : String
  pub naming : String

unfoldable pub comment : StackGroup → String
comment group = "# " <> (group.path <> (" stacks: \"" <> (group.naming <> "\"")))

unfoldable pub matches : StackGroup → String → Bool
matches group line = starts_with (strip line) ("# " <> (group.path <> " stacks"))

abbrev pub workspace : StackGroup
workspace = record { path = "business_domain/workspace"; naming = "<domain_name>_workspace" }

abbrev pub workspace_folder : StackGroup
workspace_folder = record {
  path = "business_domain/workspace_folder";
  naming = "<domain_name>_workspace_folder";
}

abbrev pub unity_catalog : StackGroup
unity_catalog = record {
  path = "data_domain/unity_catalog";
  naming = "<domain_name>_unity_catalog";
}

abbrev pub unity_catalog_schema : StackGroup
unity_catalog_schema = record {
  path = "data_domain/unity_catalog_schema";
  naming = "<catalog_name>_unity_catalog_schema";
}

unfoldable pub env_config_path : String → String
env_config_path environment =
    "src/configs/" <> (environment <> ("/" <> (environment <> "_config.tm.hcl")))

abbrev pub key_of : Option Attribute → Option String
key_of none = none
key_of (some m) = some m.key

-- `_attribute_key`
unfoldable pub attribute_key : String → Option String
attribute_key line = key_of (match_attribute line)

abbrev pub is_attribute : String → Bool
is_attribute line = elim (match_attribute line) [ none ↦ false | some m ↦ true ]

-- The loop of `_find_block` over the lines from the opening one on; the depth is what was opened less
-- what was closed. The answer is the distance to the closing line.
unfoldable pub closing_line : ℕ → ℕ → List String → Option ℕ
closing_line opens closes [] = none
closing_line opens closes (line ∷ lines) =
    let rest = closing_line (opens + opened line) (closes + closed line) lines in
    if opens + opened line == closes + closed line then some 0 else one_more rest

-- `_find_block`
unfoldable pub find_block : List String → Result (ℕ × ℕ)
find_block lines = elim (position is_block_start lines) [
  | none ↦ err (
      value_error
        "no `globals \"stack_ids\" \"<env>\" {` or `stack_ids = {` block found in the environment config")
  | some start ↦ elim (closing_line 0 0 (drop start lines)) [
    | none ↦ err (value_error "unterminated stack ids block in the environment config")
    | some n ↦ ok (start, start + n)
  ]
]

-- `[lines[i] for i in range(start + 1, end)]`
abbrev pub body : ℕ × ℕ → List String → List String
body (start, end) lines = drop (suc start) (take end lines)

abbrev pub is_named : String → String → Bool
is_named key line = elim (attribute_key line) [ none ↦ false | some k ↦ k == key ]

-- `max(...)`
abbrev pub widest : List Attribute → ℕ
widest [] = 0
widest (m ∷ ms) = let rest = widest ms in if leb (size m.key) rest then rest else size m.key

abbrev pub spaces : ℕ → String
spaces zero = ""
spaces (suc n) = " " <> spaces n

-- `key.ljust(width)`
abbrev pub ljust : String → ℕ → String
ljust key width = key <> spaces (width - size key)

abbrev pub aligned : ℕ → Attribute → String
aligned width m = m.indent <> (ljust m.key width <> (" = " <> m.value))

-- A line that is no attribute has no `m["key"]`.
unfoldable pub match_all : List String → Result (List Attribute)
match_all [] = ok []
match_all (line ∷ lines) = elim (match_attribute line) [
  | none ↦ err type_error
  | some m ↦ match_all lines >>= λ ms. ok (m ∷ ms)
]

-- `_align`
unfoldable pub align : List String → Result (List String)
align group_lines = match_all group_lines >>= λ ms. ok (map (aligned (widest ms)) ms)

-- The indent of the first entry, or that of the opening line and two more.
abbrev pub indent_from : Option String → Option String → String
indent_from (some line) opening = take_while is_space line
indent_from none (some opening) = take_while is_space opening <> "  "
indent_from none none = "  "

abbrev pub entry_indent : List String → Option String → String
entry_indent block opening = indent_from (first is_attribute block) opening

abbrev pub entry : String → String → String → String
entry indent key stack_uuid = indent <> (key <> (" = \"" <> (stack_uuid <> "\"")))

abbrev pub head : List String → Option String
head [] = none
head (line ∷ lines) = some line

abbrev pub is_other : String → Bool
is_other line = not (is_attribute line)

-- `lines[header:end]` with the new line behind the attributes of the group, which are aligned.
unfoldable pub appended : String → List String → Result (List String)
appended line [] = ok []
appended line (header ∷ rest) = align (take_until is_other rest ++ line ∷ []) >>= λ lines.
    ok (header ∷ (lines ++ drop_until is_other rest))

-- The body of the block with the new line in its group.
unfoldable pub grouped : StackGroup → String → List String → Result (List String)
grouped group line block = appended line (drop_until (matches group) block) >>= λ lines.
    ok (take_until (matches group) block ++ lines)

-- The lines of the file once the entry is there.
unfoldable pub registered :
    StackGroup → String → String → ℕ × ℕ → List String → Result (List String)
registered group key stack_uuid (start, end) lines =
    let block = body (start, end) lines in
    let indent = entry_indent block (head (drop start lines)) in
    let line = entry indent key stack_uuid in
    if any (matches group) block
    then (grouped group line block >>= λ new.
        ok (take (suc start) lines ++ (new ++ drop end lines)))
    else ok (take end lines ++ ((indent <> comment group) ∷ line ∷ drop end lines))

abbrev pub unlines : Bool → List String → String
unlines final lines = join "\n" lines <> (if final then "\n" else "")

-- The patch of `register_stack_id_patch`.
unfoldable pub register_stack_id_patch : StackGroup → String → String → String → Result String
register_stack_id_patch group key stack_uuid text = find_block (splitlines text) >>= λ block.
    if any (is_named key) (body block (splitlines text))
    then ok text
    else (registered group key stack_uuid block (splitlines text) >>= λ lines.
        ok (unlines (ends_with_newline text) lines))

unfoldable pub register_stack_id : String → StackGroup → String → String → FileEdit
register_stack_id environment group key stack_uuid =
    edit_text (env_config_path environment) (register_stack_id_patch group key stack_uuid)
