-- ===== src/Tree/ResolveLaws.antt =====
-- When a reference resolves (feature/feature_tree.cpp, resolveReference).
use oreo_kernel.Prelude.{String, true, false, ◌≡◌, List, some, arith, ◌==◌, string_eq, ok}
use oreo_kernel.Prelude.Dict.{Dict, lookup}
use oreo_kernel.Feature.{Feature, ElementRef, is_null_ref}
use oreo_kernel.Tree.Resolve.{
  Shapes, ResolvedRef, is_suppressed, resolve_root, resolve_element, resolve_name,
  resolve_reference,
}

resolve_element-part :
    (K : Shapes) (named : K.Named) (r : ElementRef) (res : ResolvedRef K)
    → resolve_element K named r ≡ ok res
    → res.is_whole_shape ≡ false
unfolding resolve_element resolve_name
resolve_element-part K named r res h = ground arith

-- A reference that resolves names a feature and an element of it, the feature is not suppressed, and
-- a shape that is not null is cached for it. It resolves to the whole shape exactly if the element is
-- ROOT; then that is the cached shape, and the reference asks for no face, edge or vertex.
pub resolve_reference-resolved :
    (K : Shapes) (fs : List Feature) (cache : Dict String K.Named) (r : ElementRef)
    (res : ResolvedRef K)
    → resolve_reference K fs cache r ≡ ok res
    → res.resolved ≡ true
    → (is_null_ref r ≡ false)
      × (is_suppressed K fs r.feature_id ≡ false)
      × (res.is_whole_shape ≡ (r.element_name == "ROOT"))
      × ((named : K.Named) × (lookup r.feature_id cache ≡ some named)
          × (K.is_null named ≡ false)
          × ((r.element_name == "ROOT") ≡ true
              → (res.named_shape ≡ named)
                × ((r.element_type == "Face") ≡ false)
                × ((r.element_type == "Edge") ≡ false)
                × ((r.element_type == "Vertex") ≡ false)))
unfolding resolve_reference resolve_root
resolve_reference-resolved K fs cache r res h k =
    ground (arith, λ (named : K.Named). resolve_element-part K named r res)
