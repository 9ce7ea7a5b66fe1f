-- ===== src/Common.antt =====
-- The shared data of the dashboard: dashboard/src/common/interfaces and dashboard/src/common/utils/severity.ts.
use tracium.Prelude.{ℕ, Bool, Option, String}

pub data Severity : Type 0 where
  info warning critical : Severity

-- A row of SEVERITY_META
pub record SeverityMeta : Type 0 where
  pub color : String
  pub tint : String
  pub border : String
  pub rank : ℕ

abbrev pub severity_meta : Severity → SeverityMeta
severity_meta Severity.critical = record {
  color = "var(--error)";
  tint = "color-mix(in srgb, var(--error) 14%, transparent)";
  border = "color-mix(in srgb, var(--error) 42%, transparent)";
  rank = 3;
}
severity_meta Severity.warning = record {
  color = "var(--warning)";
  tint = "color-mix(in srgb, var(--warning) 14%, transparent)";
  border = "color-mix(in srgb, var(--warning) 42%, transparent)";
  rank = 2;
}
severity_meta Severity.info = record {
  color = "var(--muted-foreground)";
  tint = "color-mix(in srgb, var(--muted-foreground) 16%, transparent)";
  border = "color-mix(in srgb, var(--muted-foreground) 42%, transparent)";
  rank = 1;
}

pub record AvailableTool : Type 0 where
  pub name : String
  pub description : String
  pub used : Bool

pub record SetupIssue : Type 0 where
  pub code : String
  pub severity : Severity
  pub message : String

-- A mark at a bucket of a chart. `A` is what a click on it reports to its handler.
pub record ChartMarker {ℓ} (A : Type ℓ) : Type ℓ where
  pub index : ℕ
  pub color : String
  pub label : Option String
  pub on_click : Option A
