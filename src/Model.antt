-- ===== src/Model.antt =====
-- platform/types.ts: the data that the components exchange. `Catalog` is a captured database,
-- `Semantics` what users add to it, `Changes` the difference of two snapshots, `Decisions` the
-- structural equality of definitions,
-- `Shares` what is published for readers of a shared project.
mod Catalog
mod Semantics
mod Changes
mod Decisions
mod Shares
pub use Catalog.*
pub use Semantics.*
pub use Changes.*
pub use Shares.*
unfoldable pub use Decisions.*
