-- ===== src/Naming/Trace/Laws.antt =====
-- The first hop of a traced name is the one that was encoded last (naming/element_map.cpp).
use mathlib.Core.Path.{subst}
use mathlib.Core.List.{append_assoc}
use oreo_kernel.Prelude.{
  ℕ, zero, suc, ◌+◌, ◌≤◌, ◌<◌, ◌≡◌, ◌≢◌, refl, ap, ◌∙◌, [], ◌∷◌, ◌++◌, none, some, length, drop,
  arith, length-append, take-append, drop-append,
}
use oreo_kernel.Identity.{ShapeIdentity, IsU64}
use oreo_kernel.Identity.Hex.{hex_digits}
use oreo_kernel.Identity.HexLaws.{length-hex_digits}
use oreo_kernel.Naming.Name.{
  Bytes, postfix_tag, postfix_decimal_tag, postfix_identity, encode_element_name,
}
use oreo_kernel.Naming.Find.{rfind, rfind_upto}
use oreo_kernel.Naming.Extract.{identity_p, best_marker, payload, extract_document_id_of}
use oreo_kernel.Naming.Extract.Laws.{
  NoMarker, body, body-NoMarker, last_marker, drop-marker, identity_payload-body,
  encode_element_name-parts,
}
use oreo_kernel.Naming.Trace.{
  Operation, modified, generated, child, unknown, operation_of, unless_zero, trace_payload,
  trace_item, trace_loop, trace_history,
}

rfind_upto-all :
    (marker s : Bytes) (last : ℕ) → length s ≤ suc last → rfind_upto marker s last ≡ rfind marker s
unfolding rfind_upto rfind
rfind_upto-all marker [] last h = refl
rfind_upto-all marker (c ∷ []) zero h = ground arith
rfind_upto-all marker (c ∷ d ∷ s) zero h = absurd (omega arith)
rfind_upto-all marker (c ∷ s) (suc last) h = ground (arith, rfind_upto-all marker s last)

payload-body :
    (id : ShapeIdentity) (postfix : Bytes) (doc : ℕ)
    → IsU64 id
    → payload identity_p (body id postfix) doc ≡ some (id, 32)
unfolding payload
payload-body id postfix doc u =
    ap (λ o. elim o [ none ↦ none | some id ↦ some (id, 32) ]) (identity_payload-body id postfix u)

trace_payload-body :
    (id : ShapeIdentity) (postfix : Bytes) (doc : ℕ)
    → IsU64 id
    → id.counter ≢ 0
    → trace_payload identity_p (body id postfix) doc ≡ some (id, 32)
unfolding trace_payload
trace_payload-body id postfix doc u c =
    ap unless_zero (payload-body id postfix doc u) ∙ ground arith

trace_loop-step :
    (depth : ℕ) (name : Bytes) (doc last i : ℕ) (id : ShapeIdentity)
    → best_marker
        (rfind_upto postfix_identity name last)
        (rfind_upto postfix_tag name last)
        (rfind_upto postfix_decimal_tag name last)
      ≡ some (i, identity_p)
    → trace_payload identity_p (drop (i + 3) name) doc ≡ some (id, 32)
    → trace_loop (suc depth) name doc (suc last)
      ≡ trace_item name i id 32 ∷ trace_loop depth name doc i
unfolding trace_loop
trace_loop-step depth name doc last i id m p = ground arith

trace_loop-hop :
    (depth : ℕ) (name s : Bytes) (doc i : ℕ) (id : ShapeIdentity)
    → 0 < length name
    → best_marker
        (rfind postfix_identity name)
        (rfind postfix_tag name)
        (rfind postfix_decimal_tag name)
      ≡ some (i, identity_p)
    → drop (i + 3) name ≡ s
    → trace_payload identity_p s doc ≡ some (id, 32)
    → trace_loop (suc depth) name doc (length name)
      ≡ trace_item name i id 32 ∷ trace_loop depth name doc i
trace_loop-hop depth [] s doc i id h m d p = absurd (omega arith)
trace_loop-hop depth (c ∷ name) s doc i id h m d p =
    trace_loop-step depth (c ∷ name) doc (length name) i id
      (rw
        (
          rfind_upto-all postfix_identity (c ∷ name) (length name) (omega arith),
          rfind_upto-all postfix_tag (c ∷ name) (length name) (omega arith),
          rfind_upto-all postfix_decimal_tag (c ∷ name) (length name) (omega arith),
        )
        m)
      (rw d p)

drop-body :
    (name : Bytes) (id : ShapeIdentity) (postfix : Bytes)
    → drop (length name + 3 + 32) (name ++ (postfix_identity ++ body id postfix)) ≡ postfix
drop-body name id postfix =
    subst (λ k. drop k (name ++ (postfix_identity ++ body id postfix)) ≡ postfix) size
      (subst (λ s. drop (length front) s ≡ postfix) same (drop-append front postfix))
  where
    hex : Bytes
    hex = hex_digits 16 id.document_id ++ hex_digits 16 id.counter

    front : Bytes
    front = name ++ (postfix_identity ++ hex)

    size : length front ≡ length name + 3 + 32
    size = omega (
      arith,
      length-append name (postfix_identity ++ hex),
      length-append (hex_digits 16 id.document_id) (hex_digits 16 id.counter),
      length-hex_digits 16 id.document_id,
      length-hex_digits 16 id.counter,
    )

    same : front ++ postfix ≡ name ++ (postfix_identity ++ body id postfix)
    same = simp append_assoc

trace_item-encoded :
    (name : Bytes) (id : ShapeIdentity) (postfix : Bytes)
    → trace_item (name ++ (postfix_identity ++ body id postfix)) (length name) id 32
      ≡ record { name = name; id = id; operation = operation_of postfix }
unfolding trace_item
trace_item-encoded name id postfix =
    rw (take-append name (postfix_identity ++ body id postfix), drop-body name id postfix)

trace_history-first_hop :
    (name : Bytes) (id : ShapeIdentity) (postfix : Bytes)
    → IsU64 id
    → id.counter ≢ 0
    → NoMarker postfix
    → let full = encode_element_name name id postfix in
      trace_history full
      ≡ record { name = name; id = id; operation = operation_of postfix }
        ∷ trace_loop 49 full (extract_document_id_of full) (length name)
unfolding trace_history
trace_history-first_hop name id postfix u c h = rw (encode_element_name-parts name id postfix) (
    trace_loop-hop 49 full (body id postfix) (extract_document_id_of full) (length name) id
      (omega (arith, length-append name (postfix_identity ++ body id postfix)))
      (last_marker name (body id postfix) (body-NoMarker id postfix h))
      (drop-marker name (body id postfix))
      (trace_payload-body id postfix (extract_document_id_of full) u c)
    ∙ ap (λ item. item ∷ trace_loop 49 full (extract_document_id_of full) (length name))
        (trace_item-encoded name id postfix))
  where
    full : Bytes
    full = name ++ (postfix_identity ++ body id postfix)

-- The operation that a postfix stands for, by the letter behind its marker.
pub data StandsFor : Bytes → Operation → Type 0 where
  letter_m : (s : Bytes) → StandsFor (b';' ∷ b':' ∷ b'M' ∷ s) modified
  letter_g : (s : Bytes) → StandsFor (b';' ∷ b':' ∷ b'G' ∷ s) generated
  letter_c : (s : Bytes) → StandsFor (b';' ∷ b':' ∷ b'C' ∷ s) child
  nothing_there : StandsFor [] unknown

operation_of-StandsFor :
    (postfix : Bytes) (o : Operation) → StandsFor postfix o → operation_of postfix ≡ o
unfolding operation_of
operation_of-StandsFor _ _ (letter_m s) = refl
operation_of-StandsFor _ _ (letter_g s) = refl
operation_of-StandsFor _ _ (letter_c s) = refl
operation_of-StandsFor _ _ nothing_there = refl

-- Where a name ends in an identity's marker, the identity and a postfix, the first hop of its trace is
-- the rest of the name, the identity, and the operation: modified for a postfix that starts with ;:M,
-- also for ;:MG, generated for ;:G, child for ;:C, unknown for none. The trace goes on from there. The
-- identity's parts fit a uint64, its counter is not zero, and the postfix holds no marker of an
-- identity.
pub trace_history-encode_element_name :
    (name : Bytes) (id : ShapeIdentity) (postfix : Bytes) (o : Operation)
    → IsU64 id
    → id.counter ≢ 0
    → NoMarker postfix
    → StandsFor postfix o
    → let full = encode_element_name name id postfix in
      trace_history full
      ≡ record { name = name; id = id; operation = o }
        ∷ trace_loop 49 full (extract_document_id_of full) (length name)
trace_history-encode_element_name name id postfix o u c h k =
    let full = encode_element_name name id postfix in
    trace_history-first_hop name id postfix u c h
    ∙ ap
        (λ q.
          record { name = name; id = id; operation = q }
          ∷ trace_loop 49 full (extract_document_id_of full) (length name))
        (operation_of-StandsFor postfix o k)
