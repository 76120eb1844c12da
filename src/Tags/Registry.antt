-- ===== src/Tags/Registry.antt =====
-- core/tag_allocator.h: the process-wide registry of document ids by their low 32 bits, and the
-- calls that consult it.
use oreo_kernel.Prelude.{
  nat_eq, ℕ, ◌%◌, not, nat_beq, if◌then◌else◌, none, some, [], Result, ok, throw, logic_error,
  invalid_argument,
}
use oreo_kernel.Prelude.Dict.{Dict, lookup, insert}
use oreo_kernel.Identity.Scalar.{u32}
use oreo_kernel.Tags.{TagAllocator, is_negative}

abbrev pub Registry : Type 0
Registry = Dict ℕ ℕ

unfoldable pub register_document_id : Registry → ℕ → Result (Unit {0}) × Registry
register_document_id registry id =
    let low = id % u32 in
    elim (lookup low registry) [
      | none ↦ (ok tt, insert low id registry)
      | some known ↦
          if not (nat_beq known id) then (throw logic_error, registry) else (ok tt, registry)
    ]

-- clearDocumentIdRegistry
unfoldable pub clear_document_id_registry : Registry → Registry
clear_document_id_registry registry = []

-- TagAllocator(documentId, startCounter)
unfoldable pub create : Registry → ℕ → ℕ → Result TagAllocator × Registry
create registry document_id start =
    let made : TagAllocator = record {
      document_id = document_id;
      counter = start;
      occt_tags = [];
      next_occt_tag = 1;
    } in
    if is_negative start
    then (throw invalid_argument, registry)
    else if not (nat_beq document_id 0)
    then (let (registered, registry') = register_document_id registry document_id in
        elim registered [ ok _ ↦ (ok made, registry') | throw e ↦ (throw e, registry') ])
    else (ok made, registry)

unfoldable pub set_document_id :
    Registry → TagAllocator → ℕ → Result (Unit {0}) × TagAllocator × Registry
set_document_id registry a id =
    let changed : TagAllocator = record a { document_id = id } in
    if not (nat_beq a.counter 0)
    then (throw logic_error, a, registry)
    else if not (nat_beq id 0)
    then (let (registered, registry') = register_document_id registry id in
        elim registered [ ok _ ↦ (ok tt, changed, registry') | throw e ↦ (throw e, a, registry') ])
    else (ok tt, changed, registry)
