-- ===== src/Lib.antt =====
-- oreo-kernel: the kernel's own logic on top of the geometry library.
--
-- A part is a list of features with parameters, and a parameter can refer to the shape of another
-- feature or to a face, an edge or a vertex of it. What the kernel names by such a reference is
-- identified by a ShapeIdentity, a document id with a counter, which the document's TagAllocator
-- issues. A FeatureTree holds the features, the shapes that their execution left and the state of
-- the allocator before each, and its edits mark features dirty for replay. Branches of a part are
-- merged feature by feature, and the merged list enters a FeatureTree again.
--
-- Prelude: lists, options, results, association lists and integers over the native numbers. A
--   std::map, std::unordered_map or std::set is an association list or a list of keys.
-- Identity: src/core/shape_identity.h and src/core/shape_identity_v1.{h,cpp}. A 64-bit number is
--   a natural number, with `% 2 ^ 64` where the program can wrap; a signed one is its bit pattern.
--   A string is the list of its bytes here. The thread-local state of the warning scopes is passed
--   explicitly.
-- Diagnostics: src/core/diagnostic.{h,cpp}: DiagnosticCollector (Collector), with what a report reads
--   of its surroundings as an argument (Env); DiagnosticScope (Scope) of diagnostic_scope.{h,cpp};
--   and operation_result.h (OperationResult).
-- Tags: src/core/tag_allocator.h. A method takes the allocator and returns its result, or the
--   exception it throws, with the allocator that it leaves. The static registry of document ids is
--   passed beside it. One thread at a time calls it: mutexes and atomics are not modelled. SipHash is
--   documentIdFromString, on a little-endian host.
-- Feature: src/feature/feature.h and the encoding of a parameter in src/feature/param_json.cpp.
-- Naming: src/naming/element_map.{h,cpp}, mapped_name.h and indexed_name.h. ElementMap is the two-way
--   map between the indexed elements of a shape and their names; a name is a list of bytes, and
--   Extract and Trace read the identities and operations that are encoded in it. Wire writes a map
--   with its children as bytes, Read reads them. Primitive is NamedShape (named_shape.{h,cpp}) and
--   mapShapeElements (map_shape_elements.cpp), with what they ask of OCCT as a record Topology.
-- Schema: src/core/schema.{h,cpp}: SchemaVersion, the header of a document (Header), SchemaRegistry
--   (Registry) and the migration of documents (Migrate). The JSON library is an interface of what the
--   code asks of a value (JsonLibrary), with its documented laws (IsLawful).
-- Tree: src/feature/feature_tree.{h,cpp}: the tree's state, the methods that edit it (Edits),
--   resolveReference (Resolve) and the replay engine (Replay) with what is read off it (View).
--   executeFeature and the transformer of a PartStudio are given by an Executor here, and OCCT's shapes
--   by a record Shapes; what a theorem relies on of them is a hypothesis of it.
-- Config: src/feature/config.{h,cpp}: the inputs of a PartStudio and the values they are bound to
--   (Values), and resolveConfigRefs, which a PartStudio replays its tree under. What is asked of a
--   double is an interface (Doubles).
-- Execution: src/feature/feature_schema.{h,cpp}: the schemas of the feature types (Table) and
--   validateFeature (Validate); src/feature/feature.cpp: executeFeature (Execute), whose dispatch
--   (Dispatch) is a chain of steps (Program) that ends in one call of a geometry operation. What an
--   operation does is given by a record Operations. Execute.executor is an Executor of the Tree.
-- Workspace: src/feature/workspace.{h,cpp}: a branch of a part, and how it is forked.
-- Merge: src/feature/merge.{h,cpp}: threeWayMerge, pass by pass, and applyResolutions (Resolutions).
-- Examples: tests, and each theorem at an input where its hypotheses hold.
--
-- Every definition is total by structural recursion. The bounds that the code has itself are the fuel
-- of the functions they bound: 100 tries for a free name, 50 hops of a trace, 17 levels of maps that
-- deserialize reads, the steps that a registry allows. A number is printed with fuel for all digits
-- that its type can need, 10 of an int and 16 hexadecimal ones of a 64-bit number.
--
-- Not modelled: the geometry operations and everything that only calls OCCT; the constraint solver
-- and the naming code taken over from other projects; the C interface and file formats.
-- The words of a diagnostic are left out, but for the fields that are stored with it.
-- An OCCT shape is an abstract type, and operator== of JSON values is a parameter of the merge.
pub mod Prelude
pub mod Identity
pub mod Diagnostics
pub mod Tags
pub mod Feature
pub mod Naming
pub mod Schema
pub mod Tree
pub mod Config
pub mod Workspace
pub mod Execution
pub mod Merge
pub mod Examples
