-- ===== src/Merge/Conflict.antt =====
-- feature/merge.h: conflicts; feature/merge.cpp: makeConflict and makeAddRemoveConflict.
use oreo_kernel.Prelude.{String, Option, none, some}
use oreo_kernel.Prelude.Int.{ℤ, negsuc}
use oreo_kernel.Feature.{Feature, ParamValue, string}

pub data MergeConflictKind : Type 0 where
  param_conflict suppression_conflict add_remove_conflict position_conflict type_conflict :
      MergeConflictKind

pub record MergeConflict : Type 0 where
  pub kind : MergeConflictKind
  pub feature_id : String
  pub param_name : String
  pub base_value : ParamValue
  pub ours_value : ParamValue
  pub theirs_value : ParamValue
  pub base_snapshot : Option Feature
  pub ours_snapshot : Option Feature
  pub theirs_snapshot : Option Feature
  pub insert_index_hint : ℤ

unfoldable pub make_conflict :
    MergeConflictKind → String → String → ParamValue → ParamValue → ParamValue → MergeConflict
make_conflict kind id name base ours theirs = record {
  kind = kind;
  feature_id = id;
  param_name = name;
  base_value = base;
  ours_value = ours;
  theirs_value = theirs;
  base_snapshot = none;
  ours_snapshot = none;
  theirs_snapshot = none;
  insert_index_hint = negsuc 0;
}

abbrev sentinel : Option Feature → ParamValue
sentinel none = string "<removed>"
sentinel (some _) = string "<modified>"

unfoldable pub make_add_remove_conflict :
    String → Option Feature → Option Feature → Option Feature → ℤ → MergeConflict
make_add_remove_conflict id base ours theirs hint = record {
  kind = add_remove_conflict;
  feature_id = id;
  param_name = "";
  base_value = string "";
  ours_value = sentinel ours;
  theirs_value = sentinel theirs;
  base_snapshot = base;
  ours_snapshot = ours;
  theirs_snapshot = theirs;
  insert_index_hint = hint;
}
