-- ===== src/Recipes/Names.antt =====
-- The names that the stacks of a business domain share, from server/recipes/workspace.py and
-- server/recipes/unity_catalog.py.
use terramate_api_wrapper.Base.{String, ◌<>◌, Option, none, some, ◌==◌, string_eq, if◌then◌else◌}
use terramate_api_wrapper.Value.{Value, null, str}

unfoldable pub default_workspace_name : String → String → String
default_workspace_name domain environment = domain <> ("_ws_" <> environment)

-- `self.name or default`, for an attribute that may be None.
abbrev pub or_default : Option String → String → String
or_default none default = default
or_default (some name) default = if name == "" then default else name

unfoldable pub catalog_name : String → String → Option String → String
catalog_name domain environment none = domain <> ("_" <> environment)
catalog_name domain environment (some suffix) =
    if suffix == ""
    then domain <> ("_" <> environment)
    else domain <> ("_" <> (suffix <> ("_" <> environment)))

-- An attribute as a value of the document.
abbrev pub value_of : Option String → Value
value_of none = null
value_of (some s) = str s
