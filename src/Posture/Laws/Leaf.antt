-- ===== src/Posture/Laws/Leaf.antt =====
-- When two values count as equal, and when an object is found (demo/src/posture.js).
use mathlib.Core.Logic.{◌↔◌}
use mathlib.Core.Path.{subst, ap₂}
use mathlib.Core.Bool.{and-eq-true_iff}
use capability_demo.Prelude.{ℤ, ltb_ℤ, ◌≢◌, ap, ◌∙◌, Bool, not, ◌&&◌, eq_iff, eq_refl, join, arith}
use capability_demo.Git.Retention.{is_bool}
use capability_demo.Json.{is_object}
use capability_demo.Posture.Drift.{same_json, joined, element_texts}
use capability_demo.Prelude.{
  ◌≡◌, refl, sym, true, false, String, [], Option, none, some, some-inj, Bool-cases, inl, inr,
}
use capability_demo.Json.{Json, null, bool, int, frac, str, arr, obj, get}
use capability_demo.Runtime.{Node}
use capability_demo.Posture.Drift.{found_object, same_leaf, leaf_diff}

abbrev is_list : Json → Bool
is_list (arr xs) = true
is_list _ = false

module _ (node : Node) where
  -- A value as it is compared: an array as the text of its elements, joined by commas.
  abbrev pub printed : Json → Json
  printed (arr items) = str (join "," (element_texts node items))
  printed v = v

  -- The two are equal as they are compared.
  abbrev pub SamePrinted : Json → Option Json → Type 0
  SamePrinted expected actual = (v : Json) × (actual ≡ some v) × (printed expected ≡ printed v)

  same_int : (n m : ℤ) → (not (ltb_ℤ n m) && not (ltb_ℤ m n)) ≡ true → n ≡ m
  same_int n m h = ground arith

  int_refl : (n : ℤ) → (not (ltb_ℤ n n) && not (ltb_ℤ n n)) ≡ true
  int_refl n = ground arith

  same_json_sound : (a b : Json) → is_object a ≡ false → same_json node a b ≡ true → a ≡ b
  same_json_sound null null o h = refl
  same_json_sound null (bool c) o h = cc
  same_json_sound null (int m) o h = cc
  same_json_sound null (frac t) o h = cc
  same_json_sound null (str t) o h = cc
  same_json_sound null (arr ys) o h = cc
  same_json_sound null (obj gs) o h = cc
  same_json_sound (bool true) null o h = cc
  same_json_sound (bool true) (bool c) o h = ap bool (sym h)
  same_json_sound (bool true) (int m) o h = cc
  same_json_sound (bool true) (frac t) o h = cc
  same_json_sound (bool true) (str t) o h = cc
  same_json_sound (bool true) (arr ys) o h = cc
  same_json_sound (bool true) (obj gs) o h = cc
  same_json_sound (bool false) null o h = cc
  same_json_sound (bool false) (bool true) o h = cc
  same_json_sound (bool false) (bool false) o h = refl
  same_json_sound (bool false) (int m) o h = cc
  same_json_sound (bool false) (frac t) o h = cc
  same_json_sound (bool false) (str t) o h = cc
  same_json_sound (bool false) (arr ys) o h = cc
  same_json_sound (bool false) (obj gs) o h = cc
  same_json_sound (int n) null o h = cc
  same_json_sound (int n) (bool c) o h = cc
  same_json_sound (int n) (int m) o h = ap int (same_int n m h)
  same_json_sound (int n) (frac t) o h = cc
  same_json_sound (int n) (str t) o h = cc
  same_json_sound (int n) (arr ys) o h = cc
  same_json_sound (int n) (obj gs) o h = cc
  same_json_sound (frac s) null o h = cc
  same_json_sound (frac s) (bool c) o h = cc
  same_json_sound (frac s) (int m) o h = cc
  same_json_sound (frac s) (frac t) o h = ap frac ((eq_iff s t).0 h)
  same_json_sound (frac s) (str t) o h = cc
  same_json_sound (frac s) (arr ys) o h = cc
  same_json_sound (frac s) (obj gs) o h = cc
  same_json_sound (str s) null o h = cc
  same_json_sound (str s) (bool c) o h = cc
  same_json_sound (str s) (int m) o h = cc
  same_json_sound (str s) (frac t) o h = cc
  same_json_sound (str s) (str t) o h = ap str ((eq_iff s t).0 h)
  same_json_sound (str s) (arr ys) o h = cc
  same_json_sound (str s) (obj gs) o h = cc
  same_json_sound (arr xs) null o h = cc
  same_json_sound (arr xs) (bool c) o h = cc
  same_json_sound (arr xs) (int m) o h = cc
  same_json_sound (arr xs) (frac t) o h = cc
  same_json_sound (arr xs) (str t) o h = cc
  same_json_sound (arr xs) (arr ys) o h = cc
  same_json_sound (arr xs) (obj gs) o h = cc
  same_json_sound (obj fs) b o h = cc

  same_json_refl : (a : Json) → is_object a ≡ false → is_list a ≡ false → same_json node a a ≡ true
  same_json_refl null o l = refl
  same_json_refl (bool true) o l = refl
  same_json_refl (bool false) o l = refl
  same_json_refl (int n) o l = int_refl n
  same_json_refl (frac s) o l = eq_refl s
  same_json_refl (str s) o l = eq_refl s
  same_json_refl (arr xs) o l = cc
  same_json_refl (obj fs) o l = cc

  joined-printed : (v : Json) → joined node v ≡ printed v
  unfolding joined
  joined-printed null = refl
  joined-printed (bool b) = refl
  joined-printed (int n) = refl
  joined-printed (frac s) = refl
  joined-printed (str s) = refl
  joined-printed (arr xs) = refl
  joined-printed (obj fs) = refl

  printed-plain :
      (v : Json)
      → is_object v ≡ false
      → (is_object (printed v) ≡ false) × (is_list (printed v) ≡ false)
  printed-plain null o = (refl, refl)
  printed-plain (bool b) o = (refl, refl)
  printed-plain (int n) o = (refl, refl)
  printed-plain (frac s) o = (refl, refl)
  printed-plain (str s) o = (refl, refl)
  printed-plain (arr xs) o = (refl, refl)
  printed-plain (obj fs) o = cc

  same_leaf_iff :
      (expected : Json) (actual : Option Json)
      → is_object expected ≡ false
      → (same_leaf node expected actual ≡ true) ↔ SamePrinted expected actual
  unfolding same_leaf
  same_leaf_iff expected none o = (λ h. cc, λ (v, e, q). absurd (nothing v e))
    where
      nothing : (v : Json) → ◌≡◌ {A = Option Json} none (some v) → ⊥
      nothing v e = cc
  same_leaf_iff expected (some actual) o =
      let (plain, single) = printed-plain expected o in
      (
        λ h. (
          actual,
          refl,
          same_json_sound (printed expected) (printed actual) plain
              (sym (ap₂ (same_json node) (joined-printed expected) (joined-printed actual)) ∙ h),
        ),
        λ (v, e, q).
            ap₂ (same_json node) (joined-printed expected)
              (ap (joined node) (some-inj e) ∙ joined-printed v ∙ sym q)
            ∙ same_json_refl (printed expected) plain single,
      )

  quiet_iff :
      (expected : Json) (actual : Option Json) (path : String)
      → (leaf_diff node expected actual path ≡ []) ↔ (same_leaf node expected actual ≡ true)
  unfolding leaf_diff
  quiet_iff expected actual path = elim (Bool-cases (same_leaf node expected actual)) [
    | inl e ↦ rw e (λ h. refl, λ h. refl)
    | inr e ↦ rw e (λ h. cc, λ h. cc)
  ]

  pub leaf_iff :
      (expected : Json) (actual : Option Json) (path : String)
      → is_object expected ≡ false
      → (leaf_diff node expected actual path ≡ []) ↔ SamePrinted expected actual
  leaf_iff expected actual path plain = (
    λ h. (same_leaf_iff expected actual plain).0 ((quiet_iff expected actual path).0 h),
    λ h. (quiet_iff expected actual path).1 ((same_leaf_iff expected actual plain).1 h),
  )

  pub found_object_iff :
      (actual : Option Json) (v : Json)
      → (found_object actual ≡ some v)
        ↔ ((actual ≡ some v) × (is_object v ≡ true) × (get "missing" v ≢ some (bool true)))
  found_object_iff none v = (λ h. absurd (nothing h), λ (e, _, _). e)
    where
      nothing : none ≡ some v → ⊥
      nothing h = cc
  found_object_iff (some w) v =
      elim (Bool-cases (is_object w && not (is_bool (get "missing" w) true))) [
        | inl e ↦
            let (object, there) = (and-eq-true_iff (is_object w) _).0 e in
            (
              λ h.
                  let same : w ≡ v = some-inj (rw e at h) in
                  (
                    ap some same,
                    sym (ap is_object same) ∙ object,
                    λ m. absurd (marked (get "missing" w) there (ap (get "missing") same ∙ m)),
                  ),
              λ (same, _, _). rw e same,
            )
        | inr e ↦ (
          λ h. let nothing : none ≡ some v = rw e at h in cc,
          λ (same, object, unmarked).
              let held : (is_object w && not (is_bool (get "missing" w) true)) ≡ true =
                (and-eq-true_iff (is_object w) _).1 (
                  ap is_object (some-inj same) ∙ object,
                  unmarked_test (get "missing" w)
                      (λ m. unmarked (sym (ap (get "missing") (some-inj same)) ∙ m)),
                ) in
              cc,
        )
      ]
    where
      marked : (m : Option Json) → not (is_bool m true) ≡ true → m ≡ some (bool true) → ⊥
      marked m h e =
          let shut : not (is_bool (some (bool true)) true) ≡ true =
            subst (λ x. not (is_bool x true) ≡ true) e h in
          cc

      unmarked_test : (m : Option Json) → m ≢ some (bool true) → not (is_bool m true) ≡ true
      unmarked_test none h = refl
      unmarked_test (some null) h = refl
      unmarked_test (some (bool true)) h = absurd (h refl)
      unmarked_test (some (bool false)) h = refl
      unmarked_test (some (int n)) h = refl
      unmarked_test (some (frac t)) h = refl
      unmarked_test (some (str t)) h = refl
      unmarked_test (some (arr xs)) h = refl
      unmarked_test (some (obj fs)) h = refl
