-- ===== src/Category.antt =====
-- src/category.rs: the categories of findings, with their names and default severities.
pub mod Laws
pub mod Tests
use soroban_upgrade_safeguar.Base.{String, List, [], ◌∷◌, Option, find, str_eq, any}

-- `Severity` of src/diff.rs.
pub data Severity : Type 0 where
  critical warning info : Severity

pub data FindingCategory : Type 0 where
  environment function_removed function_documentation_changed function_added : FindingCategory
  function_signature_changed parameter_renamed parameter_reordered parameter_type_changed :
      FindingCategory
  return_type_changed bytesn_size_changed event_definition_removed struct_removed : FindingCategory
  struct_documentation_changed struct_added struct_field_removed struct_field_inserted :
      FindingCategory
  struct_field_reordered struct_field_type_changed struct_field_added event_schema_removed :
      FindingCategory
  event_schema_reordered event_schema_type_changed event_enum_removed enum_removed : FindingCategory
  enum_documentation_changed enum_added enum_case_removed enum_case_value_changed : FindingCategory
  enum_case_added event_enum_case_removed event_enum_case_value_changed : FindingCategory
  event_enum_case_added union_removed union_added union_case_removed union_case_reordered :
      FindingCategory
  union_case_type_changed union_case_added error_enum_removed error_enum_added : FindingCategory
  error_enum_case_removed error_enum_case_value_changed error_enum_case_added : FindingCategory
  type_kind_changed cascading_layout_break host_import_added host_import_removed : FindingCategory
  host_import_signature_changed unknown_host_import protocol_requirement_raised : FindingCategory
  protocol_environment_mismatch memory_added memory_removed memory_limits_changed : FindingCategory
  table_added table_removed table_limits_changed table_element_type_changed global_added :
      FindingCategory
  global_removed global_mutability_changed global_type_changed start_function_added :
      FindingCategory
  start_function_removed start_function_changed element_segment_changed data_segment_changed :
      FindingCategory
  wasm_proposal_added wasm_proposal_removed storage_durability_changed : FindingCategory
  storage_namespace_changed map_key_type_changed map_value_type_changed : FindingCategory

-- The stable string of a category.
unfoldable pub as_str : FindingCategory → String
as_str environment = "Environment"
as_str function_removed = "Function Removed"
as_str function_documentation_changed = "Function Documentation Changed"
as_str function_added = "Function Added"
as_str function_signature_changed = "Function Signature Changed"
as_str parameter_renamed = "Parameter Renamed"
as_str parameter_reordered = "Parameter Reordered"
as_str parameter_type_changed = "Parameter Type Changed"
as_str return_type_changed = "Return Type Changed"
as_str bytesn_size_changed = "BytesN Size Changed"
as_str event_definition_removed = "Event Definition Removed"
as_str struct_removed = "Struct Removed"
as_str struct_documentation_changed = "Struct Documentation Changed"
as_str struct_added = "Struct Added"
as_str struct_field_removed = "Struct Field Removed"
as_str struct_field_inserted = "Struct Field Inserted"
as_str struct_field_reordered = "Struct Field Reordered"
as_str struct_field_type_changed = "Struct Field Type Changed"
as_str struct_field_added = "Struct Field Added"
as_str event_schema_removed = "Event Schema Removed"
as_str event_schema_reordered = "Event Schema Reordered"
as_str event_schema_type_changed = "Event Schema Type Changed"
as_str event_enum_removed = "Event Enum Removed"
as_str enum_removed = "Enum Removed"
as_str enum_documentation_changed = "Enum Documentation Changed"
as_str enum_added = "Enum Added"
as_str enum_case_removed = "Enum Case Removed"
as_str enum_case_value_changed = "Enum Case Value Changed"
as_str enum_case_added = "Enum Case Added"
as_str event_enum_case_removed = "Event Enum Case Removed"
as_str event_enum_case_value_changed = "Event Enum Case Value Changed"
as_str event_enum_case_added = "Event Enum Case Added"
as_str union_removed = "Union Removed"
as_str union_added = "Union Added"
as_str union_case_removed = "Union Case Removed"
as_str union_case_reordered = "Union Case Reordered"
as_str union_case_type_changed = "Union Case Type Changed"
as_str union_case_added = "Union Case Added"
as_str error_enum_removed = "Error Enum Removed"
as_str error_enum_added = "Error Enum Added"
as_str error_enum_case_removed = "Error Enum Case Removed"
as_str error_enum_case_value_changed = "Error Enum Case Value Changed"
as_str error_enum_case_added = "Error Enum Case Added"
as_str type_kind_changed = "Type Kind Changed"
as_str cascading_layout_break = "Cascading Layout Break"
as_str host_import_added = "Host Import Added"
as_str host_import_removed = "Host Import Removed"
as_str host_import_signature_changed = "Host Import Signature Changed"
as_str unknown_host_import = "Unknown Host Import"
as_str protocol_requirement_raised = "Protocol Requirement Raised"
as_str protocol_environment_mismatch = "Protocol Environment Mismatch"
as_str memory_added = "Memory Added"
as_str memory_removed = "Memory Removed"
as_str memory_limits_changed = "Memory Limits Changed"
as_str table_added = "Table Added"
as_str table_removed = "Table Removed"
as_str table_limits_changed = "Table Limits Changed"
as_str table_element_type_changed = "Table Element Type Changed"
as_str global_added = "Global Added"
as_str global_removed = "Global Removed"
as_str global_mutability_changed = "Global Mutability Changed"
as_str global_type_changed = "Global Type Changed"
as_str start_function_added = "Start Function Added"
as_str start_function_removed = "Start Function Removed"
as_str start_function_changed = "Start Function Changed"
as_str element_segment_changed = "Element Segment Changed"
as_str data_segment_changed = "Data Segment Changed"
as_str wasm_proposal_added = "WASM Proposal Added"
as_str wasm_proposal_removed = "WASM Proposal Removed"
as_str storage_durability_changed = "Storage Durability Changed"
as_str storage_namespace_changed = "Storage Namespace Changed"
as_str map_key_type_changed = "Map Key Type Changed"
as_str map_value_type_changed = "Map Value Type Changed"

-- The default severity of a category.
unfoldable pub default_severity : FindingCategory → Severity
default_severity environment = info
default_severity function_removed = critical
default_severity function_documentation_changed = info
default_severity function_added = info
default_severity function_signature_changed = critical
default_severity parameter_renamed = warning
default_severity parameter_reordered = critical
default_severity parameter_type_changed = critical
default_severity return_type_changed = critical
default_severity bytesn_size_changed = critical
default_severity event_definition_removed = critical
default_severity struct_removed = critical
default_severity struct_documentation_changed = info
default_severity struct_added = info
default_severity struct_field_removed = critical
default_severity struct_field_inserted = critical
default_severity struct_field_reordered = critical
default_severity struct_field_type_changed = critical
default_severity struct_field_added = warning
default_severity event_schema_removed = critical
default_severity event_schema_reordered = critical
default_severity event_schema_type_changed = critical
default_severity event_enum_removed = critical
default_severity enum_removed = critical
default_severity enum_documentation_changed = info
default_severity enum_added = info
default_severity enum_case_removed = critical
default_severity enum_case_value_changed = critical
default_severity enum_case_added = info
default_severity event_enum_case_removed = critical
default_severity event_enum_case_value_changed = critical
default_severity event_enum_case_added = info
default_severity union_removed = critical
default_severity union_added = info
default_severity union_case_removed = critical
default_severity union_case_reordered = critical
default_severity union_case_type_changed = critical
default_severity union_case_added = info
default_severity error_enum_removed = critical
default_severity error_enum_added = info
default_severity error_enum_case_removed = critical
default_severity error_enum_case_value_changed = critical
default_severity error_enum_case_added = info
default_severity type_kind_changed = critical
default_severity cascading_layout_break = critical
default_severity host_import_added = warning
default_severity host_import_removed = info
default_severity host_import_signature_changed = warning
default_severity unknown_host_import = warning
default_severity protocol_requirement_raised = warning
default_severity protocol_environment_mismatch = critical
default_severity memory_added = info
default_severity memory_removed = critical
default_severity memory_limits_changed = warning
default_severity table_added = info
default_severity table_removed = critical
default_severity table_limits_changed = warning
default_severity table_element_type_changed = critical
default_severity global_added = info
default_severity global_removed = warning
default_severity global_mutability_changed = critical
default_severity global_type_changed = critical
default_severity start_function_added = critical
default_severity start_function_removed = warning
default_severity start_function_changed = warning
default_severity element_segment_changed = info
default_severity data_segment_changed = info
default_severity wasm_proposal_added = warning
default_severity wasm_proposal_removed = info
default_severity storage_durability_changed = critical
default_severity storage_namespace_changed = critical
default_severity map_key_type_changed = critical
default_severity map_value_type_changed = critical

-- Every category, in the order of the source.
unfoldable pub categories : List FindingCategory
categories =
    environment ∷ function_removed ∷ function_documentation_changed ∷ function_added
    ∷ function_signature_changed ∷ parameter_renamed ∷ parameter_reordered ∷ parameter_type_changed
    ∷ return_type_changed ∷ bytesn_size_changed ∷ event_definition_removed ∷ struct_removed
    ∷ struct_documentation_changed ∷ struct_added ∷ struct_field_removed ∷ struct_field_inserted
    ∷ struct_field_reordered ∷ struct_field_type_changed ∷ struct_field_added ∷ event_schema_removed
    ∷ event_schema_reordered ∷ event_schema_type_changed ∷ event_enum_removed ∷ enum_removed
    ∷ enum_documentation_changed ∷ enum_added ∷ enum_case_removed ∷ enum_case_value_changed
    ∷ enum_case_added ∷ event_enum_case_removed ∷ event_enum_case_value_changed
    ∷ event_enum_case_added ∷ union_removed ∷ union_added ∷ union_case_removed
    ∷ union_case_reordered ∷ union_case_type_changed ∷ union_case_added ∷ error_enum_removed
    ∷ error_enum_added ∷ error_enum_case_removed ∷ error_enum_case_value_changed
    ∷ error_enum_case_added ∷ type_kind_changed ∷ cascading_layout_break ∷ host_import_added
    ∷ host_import_removed ∷ host_import_signature_changed ∷ unknown_host_import
    ∷ protocol_requirement_raised ∷ protocol_environment_mismatch ∷ memory_added ∷ memory_removed
    ∷ memory_limits_changed ∷ table_added ∷ table_removed ∷ table_limits_changed
    ∷ table_element_type_changed ∷ global_added ∷ global_removed ∷ global_mutability_changed
    ∷ global_type_changed ∷ start_function_added ∷ start_function_removed ∷ start_function_changed
    ∷ element_segment_changed ∷ data_segment_changed ∷ wasm_proposal_added ∷ wasm_proposal_removed
    ∷ storage_durability_changed ∷ storage_namespace_changed ∷ map_key_type_changed
    ∷ map_value_type_changed ∷ []

-- The category with this name.
unfoldable pub find_by_name : String → Option FindingCategory
unfolding categories
find_by_name s = find (λ c. str_eq (as_str c) s) categories
