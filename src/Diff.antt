-- ===== src/Diff.antt =====
-- src/diff.rs: findings and their axes. The passes of `compare` are the modules below: each
-- returns the findings that it pushes onto the report, in order.
pub mod Detail
pub mod Functions
pub mod Structs
pub mod Enums
pub mod Unions
pub mod ErrorEnums
pub mod Kinds
pub mod Cascade
pub mod Axes
pub mod Severities
pub mod Compare
pub mod Tests
use soroban_upgrade_safeguar.Base.{
  ℕ, String, List, [], ◌∷◌, Bool, true, false, Option, none, some, count, ltb, if◌then◌else◌, any,
  ◌≡◌, ◌↔◌, arith, contains_lower,
}
use soroban_upgrade_safeguar.Category.{Severity, critical, warning, info, FindingCategory, as_str}

pub data CompatibilityAxis : Type 0 where
  storage_layout call_abi event_indexer source_level runtime_surface : CompatibilityAxis

-- `==` of the axes.
abbrev pub axis_equal : CompatibilityAxis → CompatibilityAxis → Bool
axis_equal storage_layout storage_layout = true
axis_equal call_abi call_abi = true
axis_equal event_indexer event_indexer = true
axis_equal source_level source_level = true
axis_equal runtime_surface runtime_surface = true
axis_equal _ _ = false

-- `axes.contains(&a)`
abbrev pub has_axis : CompatibilityAxis → List CompatibilityAxis → Bool
has_axis a axes = any (axis_equal a) axes

pub axis_equal_iff : (a b : CompatibilityAxis) → (axis_equal a b ≡ true) ↔ (a ≡ b)
axis_equal_iff a b = ground arith

unfoldable pub axis_severity : CompatibilityAxis → Severity
axis_severity storage_layout = critical
axis_severity call_abi = critical
axis_severity event_indexer = warning
axis_severity source_level = info
axis_severity runtime_surface = critical

pub record Finding : Type 0 where
  pub severity : Severity
  pub axes : List CompatibilityAxis
  pub category : String
  pub message : String
  pub type_name : Option String
  pub target : Option String
  pub root_target : Option String
  pub change : Option String

abbrev pub is_critical : Severity → Bool
is_critical critical = true
is_critical _ = false

abbrev pub is_warning : Severity → Bool
is_warning warning = true
is_warning _ = false

abbrev pub is_info : Severity → Bool
is_info info = true
is_info _ = false

-- The findings of a `DiffReport`, counted by severity.
unfoldable pub critical_count : List Finding → ℕ
critical_count fs = count (λ f. is_critical f.severity) fs

unfoldable pub warning_count : List Finding → ℕ
warning_count fs = count (λ f. is_warning f.severity) fs

unfoldable pub info_count : List Finding → ℕ
info_count fs = count (λ f. is_info f.severity) fs

-- The literal of a pass: no axes yet, no change and no root.
abbrev pub direct : FindingCategory → Severity → String → Option String → Option String → Finding
direct c s message type_name target = record {
  severity = s;
  axes = [];
  category = as_str c;
  message = message;
  type_name = type_name;
  target = target;
  root_target = none;
  change = none;
}

-- `is_event`: only ASCII letters become the letters of the needle.
unfoldable pub is_event : String → Bool
unfolding contains_lower
is_event name = contains_lower name "event"
