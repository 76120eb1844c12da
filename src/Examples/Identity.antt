-- ===== src/Examples/Identity.antt =====
-- core/shape_identity.h and core/shape_identity_v1.cpp on small inputs.
use oreo_kernel.Prelude.{◌≤◌, ◌≡◌, ◌≢◌, refl, true, false, ok, arith}
use oreo_kernel.Identity.{ShapeIdentity, unset}
use oreo_kernel.Identity.Hex.{to_hex, from_hex, hex_digits, parse_hex}
use oreo_kernel.Identity.HexLaws.{from_hex-to_hex}
use oreo_kernel.Identity.Scalar.{encode_v1_scalar, decode_v1_scalar}
use oreo_kernel.Identity.ScalarLaws.{decode-encode}
use oreo_kernel.Identity.DedupScope.{
  done, ask, scope, no_scope, enter_scope, leave_scope, run_trace, run_trace-le_one,
}

abbrev bolt : ShapeIdentity
bolt = record { document_id = 0x123456789a; counter = 0x2f }

abbrev nut : ShapeIdentity
nut = record { document_id = 0x9100000007; counter = 12 }

from_hex_malformed : from_hex (to_hex bolt) ≢ unset
unfolding from_hex to_hex hex_digits parse_hex
from_hex_malformed h = cc

from_hex-to_hex_example : from_hex (to_hex bolt) ≡ bolt
from_hex-to_hex_example =
    from_hex-to_hex bolt (record { document_id = omega arith; counter = omega arith })

encode_bolt : encode_v1_scalar bolt ≡ ok 0x3456789a0000002f
unfolding encode_v1_scalar
encode_bolt = refl

decode-encode_example :
    decode_v1_scalar 0x3456789a0000002f 0x123456789a true no_scope
    ≡ record { result = ok bolt; dedup = no_scope; warned = false }
decode-encode_example =
    decode-encode bolt 0x3456789a0000002f true no_scope (omega arith) encode_bolt

abbrev wide : ShapeIdentity
wide = record { document_id = 0; counter = 0x700000009 }

run_trace-le_one_example :
    ((run_trace (ask (scope (ask done) (ask done))) (enter_scope no_scope)).1 ≤ 1)
    × (leave_scope (run_trace (ask (scope (ask done) (ask done))) (enter_scope no_scope)).0
        ≡ no_scope)
run_trace-le_one_example = run_trace-le_one (ask (scope (ask done) (ask done))) no_scope refl

abbrev twin : ShapeIdentity
twin = record { document_id = 0x223456789a; counter = 0x2f }

encode_twin : encode_v1_scalar twin ≡ ok 0x3456789a0000002f
unfolding encode_v1_scalar
encode_twin = refl
