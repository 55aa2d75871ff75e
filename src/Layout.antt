-- ===== src/Layout.antt =====
-- graph/layout-components.ts, graph/layout-history.ts and graph/table-selection.ts.
pub mod Components
pub mod History
mod Tests
