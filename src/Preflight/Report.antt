-- ===== src/Preflight/Report.antt =====
-- preflight/schema-preflight.ts: findings, coverage and the variables of `runSchemaPreflight`. JSON.stringify([schema, name])
-- of a table key stands for the pair.
use nodal_studio.Prelude.{
  ℕ, suc, String, List, [], ◌∷◌, ◌++◌, Option, none, some, ◌&◌, if◌then◌else◌, ltb,
}
use nodal_studio.Model.{ObjectKey, TableKey, TableDefinition, object_key}
use nodal_studio.Preflight.Mysql.{Host}

pub data PreflightOutcome : Type 0 where
  design suspected insufficient style : PreflightOutcome

pub data Severity : Type 0 where
  suggestion warning info : Severity

pub record PreflightFinding : Type 0 where
  pub id : String
  pub rule_id : String
  pub severity : Severity
  pub outcome : PreflightOutcome
  pub object_key : ObjectKey
  pub table_key : TableKey
  pub related_tables : List TableKey
  pub message : String
  pub evidence : List String
  pub recommendation : String

pub data CoverageStatus : Type 0 where
  checked_all partial_only none_checked : CoverageStatus

pub record PreflightCoverage : Type 0 where
  pub rule_id : String
  pub name : String
  pub status : CoverageStatus
  pub checked : ℕ
  pub incomplete : ℕ
  pub skipped : ℕ
  pub explanation : String

pub record PreflightReport : Type 0 where
  pub dialect : String
  pub table_count : ℕ
  pub column_count : ℕ
  pub foreign_key_count : ℕ
  pub excluded_view_count : ℕ
  pub findings : List PreflightFinding
  pub coverage : List PreflightCoverage

pub record Counts : Type 0 where
  pub checked : ℕ
  pub incomplete : ℕ
  pub skipped : ℕ

abbrev pub zero_counts : Counts
zero_counts = record { checked = 0; incomplete = 0; skipped = 0 }

abbrev pub check_one : Counts → Counts
check_one c = record c { checked = suc c.checked }

abbrev pub miss_one : Counts → Counts
miss_one c = record c { incomplete = suc c.incomplete }

-- `types` is the coverage of the rule on types of the snapshot's dialect.
pub record Progress : Type 0 where
  pub findings : List PreflightFinding
  pub keys : Counts
  pub references : Counts
  pub types : Counts
  pub names : Counts

abbrev pub severity_of : PreflightOutcome → Severity
severity_of suspected = warning
severity_of design = suggestion
severity_of other = info

-- What the caller of `add` gives.
pub record Observation : Type 0 where
  pub rule_id : String
  pub object : Option String
  pub detail : String
  pub outcome : PreflightOutcome
  pub message : String
  pub evidence : List String
  pub recommendation : String
  pub related_tables : List TableKey

abbrev pub qualified : TableDefinition → String
qualified table = table.key.schema & "." & table.key.name

abbrev pub object_of : TableDefinition → Option String → ObjectKey
object_of table none = object_key table.key
object_of table (some name) = record { kind = "constraint"; schema = qualified table; name = name }

unfoldable pub finding_of : Host → TableDefinition → Observation → PreflightFinding
finding_of host table o = record {
  id = host.stringify (
      some o.rule_id ∷ some table.key.schema ∷ some table.key.name ∷ o.object ∷ some o.detail ∷ []);
  rule_id = o.rule_id;
  severity = severity_of o.outcome;
  outcome = o.outcome;
  object_key = object_of table o.object;
  table_key = table.key;
  related_tables = o.related_tables;
  message = o.message;
  evidence = o.evidence;
  recommendation = o.recommendation;
}

unfoldable pub report : Host → TableDefinition → Observation → Progress → Progress
unfolding finding_of
report host table o p = record p { findings = p.findings ++ finding_of host table o ∷ [] }

abbrev pub status_of : Counts → CoverageStatus
status_of c =
    if ltb 0 c.incomplete
    then partial_only
    else if ltb 0 c.checked
    then checked_all
    else none_checked

abbrev pub coverage_of : String → String → String → Counts → PreflightCoverage
coverage_of rule_id name explanation c = record {
  rule_id = rule_id;
  name = name;
  status = status_of c;
  checked = c.checked;
  incomplete = c.incomplete;
  skipped = c.skipped;
  explanation = explanation;
}

abbrev pub rank : Severity → ℕ
rank warning = 0
rank suggestion = 1
rank info = 2
