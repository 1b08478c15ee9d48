-- ===== src/Posture/Laws/Drifted.antt =====
-- When a baseline and the facts do not differ (demo/src/posture.js).
use mathlib.Core.Logic.{◌↔◌}
use mathlib.Core.Path.{subst}
use capability_demo.Prelude.{◌≢◌}
use capability_demo.Json.{is_object}
use capability_demo.Prelude.{
  ◌≡◌, refl, sym, true, false, String, All, List, [], ◌∷◌, ◌++◌, Option, none, some, some-inj,
  Bool-cases, inl, inr,
}
use capability_demo.Json.{Json, Fields, null, bool, int, frac, str, arr, obj, end, field, get}
use capability_demo.Runtime.{Node}
use capability_demo.Git.Retention.{is_truthy}
use capability_demo.Grant.V2.Canonical.{utf16, units_lt}
use capability_demo.Posture.Drift.{
  Difference, Keyed, extend, insert_keyed, sort_keyed, all_differences, found_object, object_diff,
  or_missing, walk_diff, walk_fields, diff_facts,
}
use capability_demo.Posture.Laws.Leaf.{SamePrinted, leaf_iff, found_object_iff}

abbrev Quiet : Keyed → Type 0
Quiet e = ◌≡◌ {A = List Difference} (e.1) []

append_nil_iff : (xs ys : List Difference) → (xs ++ ys ≡ []) ↔ ((xs ≡ []) × (ys ≡ []))
append_nil_iff [] ys = (λ h. (refl, h), λ h. h.1)
append_nil_iff (x ∷ xs) ys = (λ h. absurd (full _ h), λ h. absurd (full _ h.0))
  where
    full : (zs : List Difference) → ◌≡◌ {A = List Difference} (x ∷ zs) [] → ⊥
    full zs h = cc

all_differences_iff : (es : List Keyed) → (all_differences es ≡ []) ↔ All Quiet es
unfolding all_differences
all_differences_iff [] = (λ h. tt, λ h. refl)
all_differences_iff (e ∷ es) = (
  λ h.
      let (p, q) = (append_nil_iff (e.1) (all_differences es)).0 h in
      (p, (all_differences_iff es).0 q),
  λ h. (append_nil_iff (e.1) (all_differences es)).1 (h.0, (all_differences_iff es).1 h.1),
)

insert_keyed-Quiet_iff :
    (e : Keyed) (es : List Keyed) → All Quiet (insert_keyed e es) ↔ (Quiet e × All Quiet es)
unfolding insert_keyed
insert_keyed-Quiet_iff e [] = (λ h. h, λ h. h)
insert_keyed-Quiet_iff e (f ∷ fs) = elim (Bool-cases (units_lt (utf16 e.0) (utf16 f.0))) [
  | inl b ↦ rw b (λ h. h, λ h. h)
  | inr b ↦ rw b (
    λ h. let (p, q) = (insert_keyed-Quiet_iff e fs).0 h.1 in (p, (h.0, q)),
    λ h. (h.1.0, (insert_keyed-Quiet_iff e fs).1 (h.0, h.1.1)),
  )
]

sort_keyed-Quiet_iff : (es : List Keyed) → All Quiet (sort_keyed es) ↔ All Quiet es
unfolding sort_keyed
sort_keyed-Quiet_iff [] = (λ h. h, λ h. h)
sort_keyed-Quiet_iff (e ∷ es) = (
  λ h.
      let (p, q) = (insert_keyed-Quiet_iff e (sort_keyed es)).0 h in
      (p, (sort_keyed-Quiet_iff es).0 q),
  λ h. (insert_keyed-Quiet_iff e (sort_keyed es)).1 (h.0, (sort_keyed-Quiet_iff es).1 h.1),
)

module _ (node : Node) where
  -- The facts agree with the baseline: an object of the baseline stands in the facts and is not
  -- marked as missing, and under each of its keys they agree again; any other value is equal, where
  -- an array counts as the text of its elements, joined by commas, so that it equals that text.
  unfoldable mutual
    pub Agrees : Json → Option Json → Type 0
    Agrees (obj fs) actual =
        (v : Json) × (actual ≡ some v)
        × (is_object v ≡ true)
        × (get "missing" v ≢ some (bool true))
        × AgreesFields fs v
    Agrees null actual = SamePrinted node null actual
    Agrees (bool b) actual = SamePrinted node (bool b) actual
    Agrees (int n) actual = SamePrinted node (int n) actual
    Agrees (frac t) actual = SamePrinted node (frac t) actual
    Agrees (str t) actual = SamePrinted node (str t) actual
    Agrees (arr xs) actual = SamePrinted node (arr xs) actual

    pub AgreesFields : Fields → Json → Type 0
    AgreesFields end v = Unit
    AgreesFields (field k e fs) v = Agrees e (get k v) × AgreesFields fs v

  found_iff :
      (fs : Fields) (actual : Option Json) (path : String) (o : Option Json)
      → ((v : Json) → All Quiet (walk_fields node fs v path) ↔ AgreesFields fs v)
      → (object_diff node (obj fs) actual path o (λ v. walk_fields node fs v path) ≡ [])
        ↔ ((v : Json) × (o ≡ some v) × AgreesFields fs v)
  unfolding object_diff
  found_iff fs actual path none h = (λ d. absurd (full d), λ (v, e, _). absurd (nothing v e))
    where
      full :
          ◌≡◌ {A = List Difference}
            (record { path = path; expected = obj fs; actual = or_missing actual } ∷ [])
            []
          → ⊥
      full d = cc

      nothing : (v : Json) → ◌≡◌ {A = Option Json} none (some v) → ⊥
      nothing v e = cc
  found_iff fs actual path (some v) h = (
    λ d. (
      v,
      refl,
      (h v).0 (
          (sort_keyed-Quiet_iff (walk_fields node fs v path)).0
            ((all_differences_iff (sort_keyed (walk_fields node fs v path))).0 d)),
    ),
    λ (w, e, k). (all_differences_iff (sort_keyed (walk_fields node fs v path))).1 (
        (sort_keyed-Quiet_iff (walk_fields node fs v path)).1
          ((h v).1 (subst (AgreesFields fs) (sym (some-inj e)) k))),
  )

  mutual
    unfolding walk_diff Agrees

    walk_diff_iff :
        (expected : Json) (actual : Option Json) (path : String)
        → (walk_diff node expected actual path ≡ []) ↔ Agrees expected actual
    walk_diff_iff (obj fs) actual path =
        let found =
          found_iff fs actual path (found_object actual) (λ v. walk_fields_iff fs v path) in
        (
          λ h.
              let (v, e, k) = found.0 h in
              let (there, object, unmarked) = (found_object_iff node actual v).0 e in
              (v, there, object, unmarked, k),
          λ (v, there, object, unmarked, k).
              found.1 (v, (found_object_iff node actual v).1 (there, object, unmarked), k),
        )
    walk_diff_iff null actual path = leaf_iff node null actual path refl
    walk_diff_iff (bool b) actual path = leaf_iff node (bool b) actual path refl
    walk_diff_iff (int n) actual path = leaf_iff node (int n) actual path refl
    walk_diff_iff (frac s) actual path = leaf_iff node (frac s) actual path refl
    walk_diff_iff (str s) actual path = leaf_iff node (str s) actual path refl
    walk_diff_iff (arr xs) actual path = leaf_iff node (arr xs) actual path refl

    walk_fields_iff :
        (fs : Fields) (v : Json) (path : String)
        → All Quiet (walk_fields node fs v path) ↔ AgreesFields fs v
    walk_fields_iff end v path = (λ h. tt, λ h. tt)
    walk_fields_iff (field k e fs) v path = (
      λ h. ((walk_diff_iff e (get k v) (extend path k)).0 h.0, (walk_fields_iff fs v path).0 h.1),
      λ h. ((walk_diff_iff e (get k v) (extend path k)).1 h.0, (walk_fields_iff fs v path).1 h.1),
    )

  -- No drift is found exactly when the facts could be read and agree with the baseline: every
  -- object of the baseline stands in the facts as an object and is not marked as missing, and every
  -- other value of the baseline is equal to what stands at its place, where an array counts as the
  -- text of its elements joined by commas, so that it also equals that text. What only the facts
  -- hold plays no part.
  pub diff_facts-Agrees_iff :
      (live baseline : Json)
      → (diff_facts node live baseline ≡ [])
        ↔ ((is_truthy (get "unreadable" live) ≡ false) × Agrees baseline (some live))
  unfolding diff_facts
  diff_facts-Agrees_iff live baseline = elim (Bool-cases (is_truthy (get "unreadable" live))) [
    | inl e ↦ rw e (λ h. cc, λ h. cc)
    | inr e ↦ rw e (
      λ h. (refl, (walk_diff_iff baseline (some live) "").0 h),
      λ h. (walk_diff_iff baseline (some live) "").1 h.1,
    )
  ]
    where
      full : (d : Difference) → ◌≡◌ {A = List Difference} (d ∷ []) [] → ⊥
      full d h = cc

      shut : true ≡ false → ⊥
      shut h = cc
