-- ===== src/Tags/RegistryLaws.antt =====
-- The registry of document ids keeps v1 tags of different documents apart (core/tag_allocator.h).
use oreo_kernel.Prelude.{
  ℕ, ◌%◌, ◌≡◌, ◌≢◌, ◌⊎◌, ◌↔◌, none, some, ok, throw, arith, nat_eq, logic_error,
}
use oreo_kernel.Prelude.Dict.{lookup, lookup-insert}
use oreo_kernel.Identity.{ShapeIdentity}
use oreo_kernel.Identity.Scalar.{u32, encode_v1_scalar, squeeze_v1_doc_id}
use oreo_kernel.Identity.ScalarLaws.{encode_v1_scalar-collision}
use oreo_kernel.Tags.{TagAllocator}
use oreo_kernel.Tags.Registry.{Registry, register_document_id, set_document_id}

abbrev pub IsRegistered : Registry → ℕ → Type 0
IsRegistered registry id = lookup (id % u32) registry ≡ some id

-- registerDocumentId returns exactly if no id is registered under the same low 32 bits or this very
-- id is; then the id is registered. Otherwise it throws and the registry does not change.
pub register_document_id_lem :
    (registry : Registry) (id : ℕ)
    → (((register_document_id registry id).0 ≡ ok tt)
        ↔ ((lookup (id % u32) registry ≡ none) ⊎ IsRegistered registry id))
      × (((register_document_id registry id).0 ≡ ok tt)
            × IsRegistered (register_document_id registry id).1 id
          ⊎ (register_document_id registry id ≡ (throw logic_error, registry)))
unfolding register_document_id
register_document_id_lem registry id =
    ((ground arith, ground arith), ground (arith, lookup-insert (id % u32) (id % u32) id registry))

-- An id that is registered stays registered, whatever id is registered after it.
pub register_document_id-keeps :
    (registry : Registry) (id other : ℕ)
    → IsRegistered registry other
    → IsRegistered (register_document_id registry id).1 other
unfolding register_document_id
register_document_id-keeps registry id other h =
    ground (arith, lookup-insert (id % u32) (other % u32) id registry)

-- Identities of two registered documents, both with an id that is not zero, that have the same v1
-- tag are the same identity.
pub registered-tags_distinct :
    (registry : Registry) (a b : ShapeIdentity) (s : ℕ)
    → a.document_id ≢ 0
    → b.document_id ≢ 0
    → IsRegistered registry a.document_id
    → IsRegistered registry b.document_id
    → encode_v1_scalar a ≡ ok s
    → encode_v1_scalar b ≡ ok s
    → a ≡ b
unfolding squeeze_v1_doc_id
registered-tags_distinct registry a b s p q ra rb h k =
    ground (arith, encode_v1_scalar-collision a b s)

-- Where setDocumentId accepts a non-zero id, nothing was allocated before, the allocator changes in
-- its document alone, and the id is registered.
pub set_document_id-registers :
    (registry : Registry) (a : TagAllocator) (id : ℕ)
    → id ≢ 0
    → (set_document_id registry a id).0 ≡ ok tt
    → (a.counter ≡ 0)
      × ((set_document_id registry a id).1 ≡ record a { document_id = id })
      × IsRegistered (set_document_id registry a id).2 id
unfolding set_document_id
set_document_id-registers registry a id p h = ground (arith, register_document_id_lem registry id)
