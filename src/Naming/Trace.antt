-- ===== src/Naming/Trace.antt =====
-- naming/element_map.cpp: traceHistory, which walks the hops of a mapped name from right to left.
pub mod Laws
use oreo_kernel.Prelude.{
  ℕ, zero, suc, ◌+◌, ◌-◌, Bool, ◌&&◌, List, [], ◌∷◌, Option, none, some, nat_beq, if◌then◌else◌,
  length, take, drop,
}
use oreo_kernel.Identity.{ShapeIdentity}
use oreo_kernel.Naming.Name.{Bytes, postfix_tag, postfix_decimal_tag, postfix_identity}
use oreo_kernel.Naming.Find.{rfind_upto, starts_with}
use oreo_kernel.Naming.Extract.{
  Marker, identity_p, hex_h, decimal_t, best_marker, payload, extract_document_id_of,
}

pub data Operation : Type 0 where
  modified generated modified_generated child unknown : Operation

pub record HistoryTraceItem : Type 0 where
  pub name : Bytes
  pub id : ShapeIdentity
  pub operation : Operation

-- The postfix behind the payload, tested in the code's order.
unfoldable pub operation_of : Bytes → Operation
unfolding starts_with
operation_of s =
    if starts_with (b';' ∷ b':' ∷ b'M' ∷ []) s
    then modified
    else if starts_with (b';' ∷ b':' ∷ b'G' ∷ []) s
    then generated
    else if starts_with (b';' ∷ b':' ∷ b'M' ∷ b'G' ∷ []) s
    then modified_generated
    else if starts_with (b';' ∷ b':' ∷ b'C' ∷ []) s
    then child
    else unknown

abbrev pub unless_zero : Option (ShapeIdentity × ℕ) → Option (ShapeIdentity × ℕ)
unless_zero none = none
unless_zero (some (id, n)) =
    if nat_beq id.counter 0 && nat_beq id.document_id 0 then none else some (id, n)

-- The trace stops at an identity that is all zero.
unfoldable pub trace_payload : Marker → Bytes → ℕ → Option (ShapeIdentity × ℕ)
trace_payload identity_p s doc = unless_zero (payload identity_p s doc)
trace_payload kind s doc = payload kind s doc

unfoldable pub trace_item : Bytes → ℕ → ShapeIdentity → ℕ → HistoryTraceItem
unfolding operation_of
trace_item name i id n = record {
  name = take i name;
  id = id;
  operation = operation_of (drop (i + 3 + n) name);
}

-- The loop, with maxDepth as the fuel, at a position.
unfoldable pub trace_loop : ℕ → Bytes → ℕ → ℕ → List HistoryTraceItem
trace_loop zero name doc pos = []
trace_loop (suc depth) name doc zero = []
trace_loop (suc depth) name doc (suc last) =
    elim (best_marker (rfind_upto postfix_identity name last) (rfind_upto postfix_tag name last)
      (rfind_upto postfix_decimal_tag name last)) [
        | none ↦ []
        | some (i, kind) ↦ elim (trace_payload kind (drop (i + 3) name) doc) [
          | none ↦ []
          | some (id, n) ↦ trace_item name i id n ∷ trace_loop depth name doc i
        ]
      ]

unfoldable pub trace_history : Bytes → List HistoryTraceItem
unfolding trace_loop
trace_history name = trace_loop 50 name (extract_document_id_of name) (length name)
