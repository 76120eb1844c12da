-- ===== src/Tree/Unique.antt =====
-- Feature ids stay unique under every edit of the tree (feature/feature_tree.cpp).
use mathlib.Core.Path.{subst}
use mathlib.Core.Option.{some-injective}
use oreo_kernel.Prelude.{
  ℕ, zero, suc, String, false, ◌≡◌, sym, refl, List, [], ◌∷◌, ◌++◌, none, some, arith, ◌==◌,
  string_eq, eq_iff, insert_at, erase_at, modify_at, get_elem?,
}
use oreo_kernel.Feature.{Feature}
use oreo_kernel.Tree.{find_index}
use oreo_kernel.Tree.Refs.{rewrite_features}

-- No feature has the id.
abbrev pub IsAbsent : String → List Feature → Type 0
IsAbsent id fs = find_index id fs ≡ none

abbrev pub UniqueIds : List Feature → Type 0
UniqueIds [] = Unit
UniqueIds (f ∷ fs) = IsAbsent f.id fs × UniqueIds fs

pub IsAbsent-cons :
    (id : String) (f : Feature) (fs : List Feature)
    → (f.id == id) ≡ false
    → IsAbsent id fs
    → IsAbsent id (f ∷ fs)
unfolding find_index
IsAbsent-cons id f fs ne h = ground arith

pub IsAbsent-uncons :
    (id : String) (f : Feature) (fs : List Feature)
    → IsAbsent id (f ∷ fs)
    → ((f.id == id) ≡ false) × IsAbsent id fs
unfolding find_index
IsAbsent-uncons id f fs h = ground arith

pub IsAbsent-append :
    (id : String) (fs : List Feature) (g : Feature)
    → (g.id == id) ≡ false
    → IsAbsent id fs
    → IsAbsent id (fs ++ g ∷ [])
unfolding find_index
IsAbsent-append id [] g ne h = ground arith
IsAbsent-append id (f ∷ fs) g ne h = ground (arith, IsAbsent-append id fs g)

pub UniqueIds-append :
    (fs : List Feature) (g : Feature) → UniqueIds fs → IsAbsent g.id fs → UniqueIds (fs ++ g ∷ [])
unfolding find_index
UniqueIds-append [] g u h = (refl, tt)
UniqueIds-append (f ∷ fs) g (a, u) h =
    let (ne, h') = IsAbsent-uncons g.id f fs h in
    (
      IsAbsent-append f.id fs g (ground (arith, eq_iff f.id g.id, eq_iff g.id f.id)) a,
      UniqueIds-append fs g u h',
    )

IsAbsent-insert_at :
    (id : String) (i : ℕ) (g : Feature) (fs : List Feature)
    → (g.id == id) ≡ false
    → IsAbsent id fs
    → IsAbsent id (insert_at i g fs)
unfolding find_index insert_at
IsAbsent-insert_at id zero g fs ne h = ground arith
IsAbsent-insert_at id (suc i) g [] ne h = ground arith
IsAbsent-insert_at id (suc i) g (f ∷ fs) ne h = ground (arith, IsAbsent-insert_at id i g fs)

pub UniqueIds-insert_at :
    (i : ℕ) (g : Feature) (fs : List Feature)
    → UniqueIds fs
    → IsAbsent g.id fs
    → UniqueIds (insert_at i g fs)
unfolding insert_at find_index
UniqueIds-insert_at zero g fs u h = (h, u)
UniqueIds-insert_at (suc i) g [] u h = (refl, tt)
UniqueIds-insert_at (suc i) g (f ∷ fs) (a, u) h =
    let (ne, h') = IsAbsent-uncons g.id f fs h in
    (
      IsAbsent-insert_at f.id i g fs (ground (arith, eq_iff f.id g.id, eq_iff g.id f.id)) a,
      UniqueIds-insert_at i g fs u h',
    )

pub IsAbsent-erase_at :
    (id : String) (i : ℕ) (fs : List Feature) → IsAbsent id fs → IsAbsent id (erase_at i fs)
unfolding find_index erase_at
IsAbsent-erase_at id i [] h = refl
IsAbsent-erase_at id zero (f ∷ fs) h = ground arith
IsAbsent-erase_at id (suc i) (f ∷ fs) h = ground (arith, IsAbsent-erase_at id i fs)

pub UniqueIds-erase_at : (i : ℕ) (fs : List Feature) → UniqueIds fs → UniqueIds (erase_at i fs)
unfolding erase_at
UniqueIds-erase_at i [] u = tt
UniqueIds-erase_at zero (f ∷ fs) (a, u) = u
UniqueIds-erase_at (suc i) (f ∷ fs) (a, u) =
    (IsAbsent-erase_at f.id i fs a, UniqueIds-erase_at i fs u)

-- A feature of the list whose id is not g's.
IsAbsent-differs :
    (g : Feature) (i : ℕ) (fs : List Feature) (f : Feature)
    → IsAbsent g.id fs
    → get_elem? fs i ≡ some f
    → (g.id == f.id) ≡ false
unfolding find_index
IsAbsent-differs g i [] f a h = cc
IsAbsent-differs g zero (x ∷ fs) f a h =
    ground (arith, eq_iff g.id f.id, eq_iff x.id g.id, eq_iff f.id f.id)
IsAbsent-differs g (suc i) (x ∷ fs) f a h = ground (arith, IsAbsent-differs g i fs f)

-- The feature that was taken out is absent from the rest.
pub IsAbsent-erased :
    (i : ℕ) (fs : List Feature) (f : Feature)
    → UniqueIds fs
    → get_elem? fs i ≡ some f
    → IsAbsent f.id (erase_at i fs)
unfolding erase_at find_index
IsAbsent-erased i [] f u h = refl
IsAbsent-erased zero (g ∷ fs) f (a, u) h = subst (λ x. IsAbsent x.id fs) (some-injective g f h) a
IsAbsent-erased (suc i) (g ∷ fs) f (a, u) h =
    IsAbsent-cons f.id g (erase_at i fs) (IsAbsent-differs g i fs f a h)
      (IsAbsent-erased i fs f u h)

-- An edit in place that keeps every id keeps what is absent.
IsAbsent-modify_at :
    (id : String) (i : ℕ) (change : Feature → Feature) (fs : List Feature)
    → ((f : Feature) → (change f).id ≡ f.id)
    → IsAbsent id fs
    → IsAbsent id (modify_at i change fs)
unfolding find_index modify_at
IsAbsent-modify_at id i change [] k h = refl
IsAbsent-modify_at id zero change (f ∷ fs) k h = ground (arith, k f)
IsAbsent-modify_at id (suc i) change (f ∷ fs) k h =
    ground (arith, IsAbsent-modify_at id i change fs k)

pub UniqueIds-modify_at :
    (i : ℕ) (change : Feature → Feature) (fs : List Feature)
    → ((f : Feature) → (change f).id ≡ f.id)
    → UniqueIds fs
    → UniqueIds (modify_at i change fs)
unfolding modify_at
UniqueIds-modify_at i change [] k u = tt
UniqueIds-modify_at zero change (f ∷ fs) k (a, u) = (subst (λ x. IsAbsent x fs) (sym (k f)) a, u)
UniqueIds-modify_at (suc i) change (f ∷ fs) k (a, u) =
    (IsAbsent-modify_at f.id i change fs k a, UniqueIds-modify_at i change fs k u)

IsAbsent-rewrite :
    (old new id : String) (fs : List Feature)
    → IsAbsent id fs
    → IsAbsent id (rewrite_features old new fs).0
unfolding find_index rewrite_features
IsAbsent-rewrite old new id [] h = refl
IsAbsent-rewrite old new id (f ∷ fs) h = ground (arith, IsAbsent-rewrite old new id fs)

pub UniqueIds-rewrite :
    (old new : String) (fs : List Feature)
    → UniqueIds fs
    → UniqueIds (rewrite_features old new fs).0
unfolding rewrite_features
UniqueIds-rewrite old new [] u = tt
UniqueIds-rewrite old new (f ∷ fs) (a, u) =
    (IsAbsent-rewrite old new f.id fs a, UniqueIds-rewrite old new fs u)
