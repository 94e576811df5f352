-- ===== src/Recipes.antt =====
-- server/recipes: the stack files of the domain stacks, and the parameters that they are made from.
pub mod BundleInstance
pub mod Names
pub mod ConfigLines
pub mod StackIds
pub mod NetworkFoundation
pub mod Workspace
pub mod WorkspaceFolder
pub mod UnityCatalog
pub mod Playbooks
pub mod Registry
pub mod Defaults
