-- ===== src/Examples/ConfigFiles.antt =====
-- The theorems on the files of an environment and on the workspace Type, at concrete inputs.
use terramate_api_wrapper.Base.{
  ℕ, String, some, take, drop, arith, ◌==◌, nat_eq, string_eq, if◌then◌else◌, ◌≡◌, refl,
}
use terramate_api_wrapper.Base.Lines.{splitlines}
use terramate_api_wrapper.Result.{ok, err, type_error, ◌>>=◌}
use terramate_api_wrapper.Recipes.ConfigLines.{is_block_start, match_attribute, opened, closed}
use terramate_api_wrapper.Recipes.StackIds
use terramate_api_wrapper.Recipes.StackIds.Entries.{quote}
use terramate_api_wrapper.Recipes.StackIds.Lookup.{stack_id, given_or}
use terramate_api_wrapper.Recipes.StackIds.Laws.{
  register_stack_id_patch_twice, register_stack_id-patch-stack_id, register_stack_id_patch-outside,
}

abbrev config : String
config =
    "globals {\n  stack_ids = {\n    # business_domain/workspace stacks: x\n    ab = \"1\"\n\n    # o\n  }\n}\n"

abbrev ids : StackIds.StackGroup
ids = StackIds.workspace

config_block : StackIds.find_block (splitlines config) ≡ ok (1, 6)
unfolding splitlines StackIds.find_block StackIds.closing_line is_block_start opened closed nat_eq
    string_eq
config_block = refl

register_stack_id_patch_twice_example :
    (made : String) × (StackIds.register_stack_id_patch ids "longer" "u-1" config ≡ ok made)
    × (StackIds.register_stack_id_patch ids "longer" "u-1" made ≡ ok made)
unfolding StackIds.comment nat_eq
register_stack_id_patch_twice_example =
    register_stack_id_patch_twice ids "longer" "u-1" refl refl (λ e. cc e) refl config refl 1 6
      config_block (omega arith)

register_stack_id-patch-stack_id_example :
    (made : String) × (StackIds.register_stack_id_patch ids "longer" "u-1" config ≡ ok made)
    × ((j : String)
        → stack_id j made ≡ (
            stack_id j config >>= λ old.
            ok (if "longer" == j then some (given_or (quote "u-1") old) else old)))
unfolding StackIds.comment nat_eq
register_stack_id-patch-stack_id_example =
    register_stack_id-patch-stack_id ids "longer" "u-1" refl refl (λ e. cc e) refl config refl 1 6
      config_block (omega arith)

register_stack_id_patch-outside_example :
    (made : String) × (closing : ℕ) × (StackIds.register_stack_id_patch ids "longer" "u-1" config
      ≡ ok made)
    × (take 2 (splitlines made) ≡ take 2 (splitlines config))
    × (drop closing (splitlines made) ≡ drop 6 (splitlines config))
unfolding StackIds.comment nat_eq
register_stack_id_patch-outside_example =
    register_stack_id_patch-outside ids "longer" "u-1" refl refl (λ e. cc e) refl config refl 1 6
      config_block (omega arith)

-- The new entry joins its group, whose equals signs are aligned.
in_group :
    StackIds.register_stack_id_patch ids "longer" "u-1" config
    ≡ ok
        "globals {\n  stack_ids = {\n    # business_domain/workspace stacks: x\n    ab     = \"1\"\n    longer = \"u-1\"\n\n    # o\n  }\n}\n"
unfolding StackIds.register_stack_id_patch nat_eq string_eq StackIds.find_block is_block_start
    StackIds.closing_line opened closed StackIds.registered StackIds.grouped StackIds.appended
    StackIds.matches StackIds.align StackIds.match_all match_attribute StackIds.attribute_key
    StackIds.comment splitlines
in_group = refl

-- A group that is not there yet is put at the end of the block.
in_new_group :
    StackIds.register_stack_id_patch StackIds.unity_catalog "k" "u-1" config
    ≡ ok
        "globals {\n  stack_ids = {\n    # business_domain/workspace stacks: x\n    ab = \"1\"\n\n    # o\n    # data_domain/unity_catalog stacks: \"<domain_name>_unity_catalog\"\n    k = \"u-1\"\n  }\n}\n"
unfolding StackIds.register_stack_id_patch nat_eq string_eq StackIds.find_block is_block_start
    StackIds.closing_line opened closed StackIds.registered StackIds.grouped StackIds.appended
    StackIds.matches StackIds.align StackIds.match_all match_attribute StackIds.attribute_key
    StackIds.comment splitlines
in_new_group = refl

-- A key that is none, for a group that is there: the new line does not match `_ATTRIBUTE`.
no_key : StackIds.register_stack_id_patch ids "a.b" "u-1" config ≡ err type_error
unfolding StackIds.register_stack_id_patch nat_eq string_eq StackIds.find_block is_block_start
    StackIds.closing_line opened closed StackIds.registered StackIds.grouped StackIds.appended
    StackIds.matches StackIds.align StackIds.match_all match_attribute StackIds.attribute_key
    StackIds.comment splitlines
no_key = refl
