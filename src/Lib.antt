-- ===== src/Lib.antt =====
-- Nodal Studio: a verification library of the frontend's core logic.
--
-- Nodal Studio takes snapshots of database catalogs and shows them as a diagram of tables and
-- relationships. The frontend (apps/frontend/src) derives the diagram from a snapshot: it compares
-- two snapshots, infers relationships from column names, finds the tables around a selection,
-- lays the diagram out and keeps a history of layouts. This library models that logic.
--
-- Files, and the code each models (paths below apps/frontend/src):
--   Prelude        shared helpers: lists over native numbers, Set and Map of ECMAScript, its stable
--                  sort, its string methods
--   Model          platform/types.ts: snapshots (Catalog), domains and logical relationships
--                  (Semantics), changes (Changes), equality of these records (Decisions),
--                  shared projects (Shares)
--   Graph.Ids, Graph.Related, Graph.Inference
--                  graph/schema-graph.ts: tableNodeId, logicalRelationshipKey, relatedTableIds,
--                  inferRelationships, resolveInferredTarget, commonPrefixSegments
--   Graph.Comparison
--                  graph/schema-comparison.ts: sameTableStructure, comparisonTables
--   Graph.Diagram  graph/schema-graph.ts: buildSchemaGraph (Build, with Shown, Nodes, Edges, Added),
--                  estimatedTableNodeHeight and the labels (Labels), orientFieldEdges (Orient);
--                  graph/canvas-geometry.ts (Nodes)
--   Layout.Components
--                  graph/layout-components.ts: splitLayoutComponents
--   Layout.History graph/layout-history.ts: the undo history of layouts; setTablePinned
--                  (graph/table-position.ts) and nodeDimension (graph/elk-layout.ts)
--   Selection      graph/table-selection.ts
--   Discovery      graph/business-discovery.ts: knownRelationships (Known), neighborhood (Neighborhood)
--   Samples        a small database on which the tests run
--   Query          components/query/query-state.ts and platform/update-guard.ts; the browser's local
--                  storage and JSON are parameters (Query.Storage)
--   Preflight      preflight/schema-preflight.ts: comparePostgres (Postgres), compareMysql (Mysql),
--                  runSchemaPreflight (Run, with Checks and Keys); what is used of the host is a
--                  parameter (Mysql.Host)
--   Web.Settings, Web.Defaults
--                  platform/web-platform.ts and settings-defaults.ts: settings in local storage
--   Web.Requests, Web.Platform
--                  platform/web-platform.ts: WebPlatform, one step per request (handle); the network
--                  and the address of the page are parameters (Surroundings)
--   Web.Json, Web.Storage
--                  JSON values and object spread; what is used of the browser, as a parameter
--
-- How the code is represented: a table key JSON.stringify([schema, name]) is the pair of its parts;
-- a Set is a list without repetition and a Map an association list, both in the order of
-- insertion; records compared by their JSON text are compared field by field; a candidate table,
-- which the code compares by identity, is its place in the list of candidates; the confidences 0.92
-- and 0.68 are counted in hundredths. Strings are compared by code points.
-- A text looked up in an object literal finds one of its own texts or, by the name, a member of
-- Object.prototype. Stroke widths are counted in tenths, opacities in hundredths, and the lengths of provisional ports
-- in halves. Unicode case, trimming, white space and localeCompare, the arithmetic of positions,
-- local storage, JSON text and the network are parameters.
--
-- Fuel: the level loop of relatedTableIds recurs on the requested depth, which is the code's own
-- bound. The loop over the queue of splitLayoutComponents has fuel for one round per node and one
-- more; every node enters the queue once. The decimal digits of a number n have fuel for n + 1
-- divisions by ten.
--
-- Not modelled: rendering and React state, positions computed by ELK, the texts of the interface,
-- calls to the desktop shell, and the parts of the repository in Rust, Swift and Python.
mod Prelude
mod Samples
pub mod Model
pub mod Graph
pub mod Layout
pub mod Selection
pub mod Discovery
pub mod Query
pub mod Preflight
pub mod Web
