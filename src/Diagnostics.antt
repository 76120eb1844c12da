-- ===== src/Diagnostics.antt =====
-- core/diagnostic.{h,cpp}: diagnostics and their severities. A text is its bytes.
-- An enum is the int that it is pinned to, since Diagnostic::fromJSON casts any int to it.
pub mod Collector
pub mod OperationResult
pub mod Scope
use oreo_kernel.Prelude.{ℕ, Bool, true, false, ◌||◌, List, [], ◌∷◌, nat_beq, if◌then◌else◌}
use oreo_kernel.Prelude.Int.{ℤ, pos, ℤ_beq}

abbrev pub Text : Type 0
Text = List ℕ

-- Severity, from Debug to Fatal.
abbrev pub severity_info : ℤ
severity_info = pos 2

abbrev pub severity_warning : ℤ
severity_warning = pos 3

abbrev pub severity_error : ℤ
severity_error = pos 4

abbrev pub severity_fatal : ℤ
severity_fatal = pos 5

-- The ErrorCodes that the code below names.
abbrev pub code_ok : ℤ
code_ok = pos 0

abbrev pub code_internal_error : ℤ
code_internal_error = pos 21

abbrev pub code_diag_truncated : ℤ
code_diag_truncated = pos 200

pub record Diagnostic : Type 0 where
  pub severity : ℤ
  pub code : ℤ
  pub message : Text
  pub feature_id : Text
  pub element_ref : Text
  pub suggestion : Text
  pub geometry_degraded : Bool
  pub naming_degraded : Bool
  pub timestamp_ns : ℕ
  pub thread_id : ℕ
  pub context_id : ℕ

-- A Diagnostic as its declaration initializes it.
abbrev pub new_diagnostic : Diagnostic
new_diagnostic = record {
  severity = severity_info;
  code = code_ok;
  message = [];
  feature_id = [];
  element_ref = [];
  suggestion = [];
  geometry_degraded = false;
  naming_degraded = false;
  timestamp_ns = 0;
  thread_id = 0;
  context_id = 0;
}

-- Diagnostic::info, warning, error and fatal; an overload without a suggestion leaves it empty.
abbrev pub diagnostic_of : (severity code : ℤ) (message suggestion : Text) → Diagnostic
diagnostic_of severity code message suggestion = record new_diagnostic {
  severity = severity;
  code = code;
  message = message;
  suggestion = suggestion;
}

abbrev pub is_fatal : Diagnostic → Bool
is_fatal d = ℤ_beq d.severity severity_fatal

abbrev pub is_plain_error : Diagnostic → Bool
is_plain_error d = ℤ_beq d.severity severity_error

-- severity == Error || severity == Fatal
unfoldable pub is_error : Diagnostic → Bool
is_error d = is_plain_error d || is_fatal d

unfoldable pub is_warning : Diagnostic → Bool
is_warning d = ℤ_beq d.severity severity_warning

-- What a report reads of the clock, for the diagnostic and for the marker; the thread's hashed id;
-- and whether push_back throws std::bad_alloc.
pub record Env : Type 0 where
  pub now : ℕ
  pub marker_now : ℕ
  pub thread : ℕ
  pub out_of_memory : Bool

abbrev filled : ℕ → ℕ → ℕ
filled given default = if nat_beq given 0 then default else given

-- DiagnosticCollector::stampMetadata_, with the collector's context id.
unfoldable pub stamp_metadata : (now thread context : ℕ) → Diagnostic → Diagnostic
stamp_metadata now thread context d = record d {
  timestamp_ns = filled d.timestamp_ns now;
  thread_id = filled d.thread_id thread;
  context_id = filled d.context_id context;
}

-- A search for the first diagnostic that passes a test, and its kinds.
module _ (test : Diagnostic → Bool) where
  unfoldable pub any_of : List Diagnostic → Bool
  any_of [] = false
  any_of (d ∷ ds) = let later = any_of ds in test d || later

  unfoldable pub keep : List Diagnostic → List Diagnostic
  keep [] = []
  keep (d ∷ ds) = let later = keep ds in if test d then d ∷ later else later
