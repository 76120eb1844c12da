-- ===== src/Execution/Tame.antt =====
-- Programs that do not stop for a missing parameter, one of a wrong type or an unknown feature type,
-- and whose result agrees for allocators that are alike (feature/feature.cpp).
pub mod Branches
use mathlib.Core.Path.{subst}
use oreo_kernel.Prelude.{
  String, Bool, true, false, ◌≡◌, refl, sym, ap, ◌∙◌, some, arith, if◌then◌else◌, string_eq, Result,
  ok, throw, Exception,
}
use oreo_kernel.Prelude.Dict.{Dict, lookup}
use oreo_kernel.Identity.{ShapeIdentity}
use oreo_kernel.Tags.{TagAllocator, next_shape_identity}
use oreo_kernel.Feature.{ParamValue}
use oreo_kernel.Tree.Deterministic.{SameTags}
use oreo_kernel.Execution.Program.{
  Stop, broken, failed, unknown_type, bad_parameter, thrown, Run, done, stopped, Program, ◌>>=◌,
  return, stop, lift, get_param, get, issue_identity,
}

abbrev pub IsRegular : Stop → Type 0
IsRegular broken = Unit
IsRegular failed = Unit
IsRegular unknown_type = ⊥
IsRegular (bad_parameter _) = ⊥
IsRegular (thrown _) = Unit

abbrev pub Fine : {A : Type 0} → Run A → Type 0
Fine (done _) = Unit
Fine (stopped s) = IsRegular s

pub next_shape_identity-agrees :
    (a b : TagAllocator)
    → SameTags a b
    → ((next_shape_identity a).0 ≡ (next_shape_identity b).0)
      × SameTags (next_shape_identity a).1 (next_shape_identity b).1
unfolding next_shape_identity
next_shape_identity-agrees a b s =
    (rw (s.counter, s.document), record { document = s.document; counter = rw s.counter })

-- A relation of allocators that issue the same identity, and stand in it afterwards.
pub record Alike : Type 1 where
  pub same : TagAllocator → TagAllocator → Type 0
  pub issue :
      (a b : TagAllocator)
      → same a b
      → ((next_shape_identity a).0 ≡ (next_shape_identity b).0)
        × same (next_shape_identity a).1 (next_shape_identity b).1

-- Allocators of one document and counter.
abbrev pub same_tags : Alike
same_tags = record { same = SameTags; issue = next_shape_identity-agrees }

abbrev pub equal_tags : Alike
equal_tags = record {
  same = λ a b. a ≡ b;
  issue = λ a b e. (ap (λ t. (next_shape_identity t).0) e, ap (λ t. (next_shape_identity t).1) e);
}

-- A parameter that is there, of the type.
abbrev pub HasParam :
    {A : Type 0} → (ParamValue → Result A) → String → Dict String ParamValue → Type 0
HasParam {A} as_type name params = (x : A) × (get_param as_type name params ≡ ok x)

module _ ⦃rel : Alike⦄ where
  pub record Tame {A : Type 0} (m : Program A) : Type 0 where
    pub apply :
        (a b : TagAllocator)
        → rel.same a b
        → ((m a).0 ≡ (m b).0) × Fine (m a).0 × rel.same (m a).1 (m b).1

  pub return-Tame : {A : Type 0} (x : A) → Tame (return x)
  return-Tame x = record { apply = λ a b s. (refl, tt, s) }

  pub stop-Tame : {A : Type 0} (s : Stop) → IsRegular s → Tame (stop {A = A} s)
  stop-Tame s h = record { apply = λ a b t. (refl, h, t) }

  pub lift-Tame : {A : Type 0} (r : Result A) → Tame (lift thrown r)
  lift-Tame (ok x) = return-Tame x
  lift-Tame (throw e) = stop-Tame (thrown e) tt

  pub if-Tame :
      {A : Type 0} (b : Bool) {m n : Program A} → Tame m → Tame n → Tame (if b then m else n)
  if-Tame true h k = h
  if-Tame false h k = k

  -- What follows a step, on its outcome.
  abbrev continued : {A B : Type 0} → (A → Program B) → Run A → TagAllocator → Run B × TagAllocator
  continued f r tags = elim r [ done a ↦ f a tags | stopped s ↦ (stopped s, tags) ]

  continued-Tame :
      {A B : Type 0} (f : A → Program B)
      → ((x : A) → Tame (f x))
      → (r : Run A) (a b : TagAllocator) → Fine r
      → rel.same a b
      → ((continued f r a).0 ≡ (continued f r b).0)
        × Fine (continued f r a).0
        × rel.same (continued f r a).1 (continued f r b).1
  continued-Tame f k (done x) a b h s = (k x).apply a b s
  continued-Tame f k (stopped e) a b h s = (refl, h, s)

  pub bind-Tame :
      {A B : Type 0} (m : Program A) (f : A → Program B)
      → Tame m
      → ((x : A) → Tame (f x))
      → Tame (m >>= f)
  bind-Tame m f h k = record {
    apply = λ a b s.
        let (e, fine, t) = h.apply a b s in
        let (e', fine', t') = continued-Tame f k (m a).0 (m a).1 (m b).1 fine t in
        (
          subst (λ r. (continued f (m a).0 (m a).1).0 ≡ (continued f r (m b).1).0) e e',
          fine',
          subst (λ r. rel.same (continued f (m a).0 (m a).1).1 (continued f r (m b).1).1) e t',
        );
  }

  -- A call that returns or throws alike is tame.
  pub answer-agrees :
      {A : Type 0} (r r' : Result A) (t t' : TagAllocator)
      → r ≡ r'
      → rel.same t t'
      → ((lift thrown r t).0 ≡ (lift thrown r' t').0)
        × Fine (lift thrown r t).0
        × rel.same (lift thrown r t).1 (lift thrown r' t').1
  answer-agrees (ok x) r' t t' e s = rw (← e) (refl, tt, s)
  answer-agrees (throw x) r' t t' e s = rw (← e) (refl, tt, s)

  pub issue_identity-Tame : Tame issue_identity
  unfolding issue_identity
  issue_identity-Tame = record {
    apply = λ a b s. let (e, t) = rel.issue a b s in answer-agrees _ _ _ _ e t;
  }

  pub get-Tame :
      {A : Type 0} (as_type : ParamValue → Result A) (name : String)
      (params : Dict String ParamValue)
      → HasParam as_type name params
      → Tame (get as_type name params)
  unfolding get
  get-Tame as_type name params (x, e) = rw e (return-Tame x)
