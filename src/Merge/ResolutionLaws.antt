-- ===== src/Merge/ResolutionLaws.antt =====
-- What applyResolutions leaves (feature/merge.cpp).
use oreo_kernel.Prelude.{
  String, Bool, true, false, ◌≡◌, inl, inr, refl, sym, List, [], ◌∷◌, Option, none, some,
  if◌then◌else◌, ◌==◌, string_eq, arith, eq_iff, ltb, length, Result, ok, Bool-cases, Option-cases,
}
use oreo_kernel.Prelude.Int.{ℤ, pos, negsuc}
use oreo_kernel.Feature.{Feature}
use oreo_kernel.Tree.{find_index}
use oreo_kernel.Tree.Unique.{IsAbsent, UniqueIds, UniqueIds-append, UniqueIds-insert_at}
use oreo_kernel.Merge.Conflict.{
  MergeConflict, MergeConflictKind, param_conflict, suppression_conflict, type_conflict,
  add_remove_conflict, position_conflict,
}
use oreo_kernel.Merge.Resolutions.{
  Resolution, ResolveChoice, choose_ours, choose_theirs, choose_base, choose_custom,
  find_resolution, chosen_value, get_bool, get_string, change_first, has_feature, remove_from_out,
  insert_at_hint, replace_in_out, enact, resolve_add_remove, apply_resolution, apply_resolutions,
}

IsAbsent-change_first :
    (id at : String) (change : Feature → Feature) (fs : List Feature)
    → ((f : Feature) → f.id ≡ at → (change f).id ≡ at)
    → IsAbsent id fs
    → IsAbsent id (change_first at change fs)
unfolding find_index change_first
IsAbsent-change_first id at change [] k h = refl
IsAbsent-change_first id at change (f ∷ fs) k h =
    ground (arith, IsAbsent-change_first id at change fs k, eq_iff f.id at, k f)

UniqueIds-change_first :
    (at : String) (change : Feature → Feature) (fs : List Feature)
    → ((f : Feature) → f.id ≡ at → (change f).id ≡ at)
    → UniqueIds fs
    → UniqueIds (change_first at change fs)
unfolding change_first
UniqueIds-change_first at change [] k u = tt
UniqueIds-change_first at change (f ∷ fs) k (a, u) = elim (Bool-cases (f.id == at)) [
  | inl e ↦ rw (e, change_first, k f ((eq_iff f.id at).0 e), sym ((eq_iff f.id at).0 e)) (a, u)
  | inr e ↦
      rw (e, change_first)
        (IsAbsent-change_first f.id at change fs k a, UniqueIds-change_first at change fs k u)
]

IsAbsent-remove_from_out :
    (id at : String) (fs : List Feature) → IsAbsent id fs → IsAbsent id (remove_from_out at fs)
unfolding find_index remove_from_out
IsAbsent-remove_from_out id at [] h = refl
IsAbsent-remove_from_out id at (f ∷ fs) h = ground (arith, IsAbsent-remove_from_out id at fs)

UniqueIds-remove_from_out :
    (at : String) (fs : List Feature) → UniqueIds fs → UniqueIds (remove_from_out at fs)
unfolding remove_from_out
UniqueIds-remove_from_out at [] u = tt
UniqueIds-remove_from_out at (f ∷ fs) (a, u) = elim (Bool-cases (f.id == at)) [
  | inl e ↦ rw (e, remove_from_out) u
  | inr e ↦
      rw (e, remove_from_out)
        (IsAbsent-remove_from_out f.id at fs a, UniqueIds-remove_from_out at fs u)
]

has_feature-IsAbsent :
    (id : String) (fs : List Feature) → has_feature id fs ≡ false → IsAbsent id fs
unfolding has_feature find_index
has_feature-IsAbsent id [] h = refl
has_feature-IsAbsent id (f ∷ fs) h = ground (arith, has_feature-IsAbsent id fs)

UniqueIds-insert_at_hint :
    (hint : ℤ) (f : Feature) (fs : List Feature)
    → UniqueIds fs
    → IsAbsent f.id fs
    → UniqueIds (insert_at_hint hint f fs)
UniqueIds-insert_at_hint (negsuc i) f fs u a = UniqueIds-append fs f u a
UniqueIds-insert_at_hint (pos i) f fs u a = elim (Bool-cases (ltb (length fs) i)) [
  | inl e ↦ rw (e, insert_at_hint) (UniqueIds-append fs f u a)
  | inr e ↦ rw (e, insert_at_hint) (UniqueIds-insert_at i f fs u a)
]

UniqueIds-enact :
    (c : MergeConflict) (side : Option Feature) (fs : List Feature)
    → UniqueIds fs
    → UniqueIds (enact c side fs)
unfolding enact replace_in_out
UniqueIds-enact c none fs u = UniqueIds-remove_from_out c.feature_id fs u
UniqueIds-enact c (some f) fs u = elim (Bool-cases (has_feature f.id fs)) [
  | inl e ↦ rw (e, enact) (UniqueIds-change_first f.id (λ _. f) fs (λ g h. refl) u)
  | inr e ↦
      rw (e, enact)
        (UniqueIds-insert_at_hint c.insert_index_hint f fs u (has_feature-IsAbsent f.id fs e))
]

unfoldable pub is_custom : ResolveChoice → Bool
is_custom choose_custom = true
is_custom _ = false

-- No resolution brings a value of its own.
abbrev pub AllSides : List Resolution → Type 0
AllSides [] = Unit
AllSides (r ∷ rs) = (is_custom r.choice ≡ false) × AllSides rs

-- The recorded values have the type that the kind of the conflict asks for.
pub record IsTyped (c : MergeConflict) : Type 0 where
  pub flags :
      c.kind ≡ suppression_conflict
      → (r : Resolution) → is_custom r.choice ≡ false
      → (b : Bool) × (get_bool (chosen_value c r) ≡ ok b)
  pub types :
      c.kind ≡ type_conflict
      → (r : Resolution) → is_custom r.choice ≡ false
      → (s : String) × (get_string (chosen_value c r) ≡ ok s)

abbrev pub AllTyped : List MergeConflict → Type 0
AllTyped [] = Unit
AllTyped (c ∷ cs) = IsTyped c × AllTyped cs

-- A list of features comes out, and no id is twice in it.
abbrev pub ReturnsUnique : Result (List Feature) → Type 0
ReturnsUnique result = (out : List Feature) × (result ≡ ok out) × UniqueIds out

find_resolution-AllSides :
    (id name : String) (rs : List Resolution) (r : Resolution)
    → AllSides rs
    → find_resolution id name rs ≡ some r
    → is_custom r.choice ≡ false
unfolding find_resolution
find_resolution-AllSides id name [] r h e = cc
find_resolution-AllSides id name (q ∷ rs) r (n, h) e =
    ground (arith, find_resolution-AllSides id name rs r h)

UniqueIds-add_remove :
    (c : MergeConflict) (r : Resolution) (fs : List Feature)
    → UniqueIds fs
    → UniqueIds (resolve_add_remove c r fs)
unfolding resolve_add_remove
UniqueIds-add_remove c r fs u = go r.choice
  where
    go :
        (choice : ResolveChoice)
        → UniqueIds (resolve_add_remove c (record r { choice = choice }) fs)
    go choose_ours = UniqueIds-enact c c.ours_snapshot fs u
    go choose_theirs = UniqueIds-enact c c.theirs_snapshot fs u
    go choose_base = UniqueIds-enact c c.base_snapshot fs u
    go choose_custom = UniqueIds-enact c c.base_snapshot fs u

ReturnsUnique-choose :
    (b : Bool) (x y : Result (List Feature))
    → ReturnsUnique x
    → ReturnsUnique y
    → ReturnsUnique (if b then x else y)
ReturnsUnique-choose true x y h k = h
ReturnsUnique-choose false x y h k = k

apply_resolution-ReturnsUnique :
    (c : MergeConflict) (r : Resolution) (fs : List Feature)
    → IsTyped c
    → is_custom r.choice ≡ false
    → UniqueIds fs
    → ReturnsUnique (apply_resolution c r fs)
unfolding apply_resolution
apply_resolution-ReturnsUnique c r fs t n u = go c.kind refl
  where
    go : (kind : MergeConflictKind) → c.kind ≡ kind → ReturnsUnique (apply_resolution c r fs)
    go param_conflict e =
        rw (e, apply_resolution) (_, refl, UniqueIds-change_first c.feature_id _ fs (λ f h. h) u)
    go suppression_conflict e =
        let (b, p) = t.flags e r n in
        rw (e, p, apply_resolution)
          (ReturnsUnique-choose (has_feature c.feature_id fs) _ _
            (
              _,
              refl,
              UniqueIds-change_first c.feature_id (λ f. record f { suppressed = b }) fs (λ f h. h)
                  u,
            )
            (fs, refl, u))
    go type_conflict e =
        let (s, p) = t.types e r n in
        rw (e, p, apply_resolution)
          (ReturnsUnique-choose (has_feature c.feature_id fs) _ _
            (
              _,
              refl,
              UniqueIds-change_first c.feature_id (λ f. record f { type = s }) fs (λ f h. h) u,
            )
            (fs, refl, u))
    go add_remove_conflict e = rw (e, apply_resolution) (_, refl, UniqueIds-add_remove c r fs u)
    go position_conflict e = rw (e, apply_resolution) (fs, refl, u)

-- Where the conflicts record values of the right types, no resolution is a custom value, and no id is
-- twice in the features that it is given, applyResolutions returns, whichever conflicts are resolved
-- and how, and no id is twice in the features that it returns.
pub apply_resolutions-ReturnsUnique :
    (fs : List Feature) (cs : List MergeConflict) (rs : List Resolution)
    → AllTyped cs
    → AllSides rs
    → UniqueIds fs
    → ReturnsUnique (apply_resolutions fs cs rs)
unfolding apply_resolutions
apply_resolutions-ReturnsUnique fs [] rs t s u = (fs, refl, u)
apply_resolutions-ReturnsUnique fs (c ∷ cs) rs (t, ts) s u =
    elim (Option-cases (find_resolution c.feature_id c.param_name rs)) [
      | inl e ↦ rw (e, apply_resolutions) (apply_resolutions-ReturnsUnique fs cs rs ts s u)
      | inr (r, e) ↦
          let n = find_resolution-AllSides c.feature_id c.param_name rs r s e in
          let (out, p, v) = apply_resolution-ReturnsUnique c r fs t n u in
          rw (e, p, apply_resolutions) (apply_resolutions-ReturnsUnique out cs rs ts s v)
    ]
