-- ===== src/Identity/Order.antt =====
-- The comparison operators of ShapeIdentity.
use oreo_kernel.Prelude.{◌≡◌, ◌≢◌, ◌⊎◌, ◌↔◌, true, false, arith}
use oreo_kernel.Identity.{ShapeIdentity, identity_lt, identity_le}

-- Of any two identities exactly one of a < b, a == b and b < a holds.
pub identity_lt_trichotomy :
    (a b : ShapeIdentity)
    → (identity_lt a b ≡ true) × (identity_lt b a ≡ false) × (a ≢ b)
      ⊎ ((identity_lt a b ≡ false) × (identity_lt b a ≡ false) × (a ≡ b)
          ⊎ (identity_lt a b ≡ false) × (identity_lt b a ≡ true) × (a ≢ b))
unfolding identity_lt
identity_lt_trichotomy a b = ground arith

-- a <= b holds exactly if a < b or a == b.
pub identity_le_iff :
    (a b : ShapeIdentity) → (identity_le a b ≡ true) ↔ ((identity_lt a b ≡ true) ⊎ (a ≡ b))
unfolding identity_le
identity_le_iff a b = (ground arith, ground arith)

-- The order of identities is transitive.
pub identity_lt_trans :
    (a b c : ShapeIdentity)
    → identity_lt a b ≡ true
    → identity_lt b c ≡ true
    → identity_lt a c ≡ true
unfolding identity_lt
identity_lt_trans a b c h k = ground arith
