-- ===== src/Transition/Shown.antt =====
-- The tests of a grade, in words of their own (demo/src/target-state-transition.js).
use mathlib.Core.Bool.{and-eq-true_iff}
use capability_demo.Prelude.{
  ◌≡◌, ◌↔◌, refl, sym, ap, ◌∙◌, true, String, ◌==◌, eq_iff, eq_refl, List, [], ◌∷◌, Option, none,
  some, some-inj,
}
use capability_demo.Json.{Json, Items, nil, cons, null, bool, int, frac, arr, obj, str, is_text_iff}
use capability_demo.Transition.Attested.{matches}
use capability_demo.Transition.Grade.{is_single, only_path, touched_only}
use capability_demo.Transition.Checks.{matches_iff}

-- The one parent is the base.
abbrev pub IsOnlyParent : Option (List String) → Option String → Type 0
IsOnlyParent parents base = (b : String) × (parents ≡ some (b ∷ [])) × (base ≡ some b)

one_parent : (p b : String) → (p == b) ≡ true → IsOnlyParent (some (p ∷ [])) (some b)
one_parent p b h = (p, refl, ap some (sym ((eq_iff p b).0 h)))

is_single-IsOnlyParent :
    (parents : Option (List String)) (base : Option String)
    → is_single parents base ≡ true
    → IsOnlyParent parents base
is_single-IsOnlyParent none none h = cc
is_single-IsOnlyParent none (some b) h = cc
is_single-IsOnlyParent (some []) none h = cc
is_single-IsOnlyParent (some []) (some b) h = cc
is_single-IsOnlyParent (some (p ∷ [])) none h = cc
is_single-IsOnlyParent (some (p ∷ [])) (some b) h = one_parent p b h
is_single-IsOnlyParent (some (p ∷ (q ∷ ps))) none h = cc
is_single-IsOnlyParent (some (p ∷ (q ∷ ps))) (some b) h = cc

pub is_single_iff :
    (parents : Option (List String)) (base : Option String)
    → (is_single parents base ≡ true) ↔ IsOnlyParent parents base
is_single_iff parents base = (
  is_single-IsOnlyParent parents base,
  λ (b, p, q). ap (λ x. is_single x base) p ∙ ap (is_single (some (b ∷ []))) q ∙ eq_refl b,
)

-- Every element is the text.
abbrev pub AllText : String → Items → Type 0
AllText path nil = Unit
AllText path (cons v vs) = (v ≡ str path) × AllText path vs

text_some : (v : Json) (s : String) → some v ≡ some (str s) → v ≡ str s
text_some v s h = some-inj h

only_path_iff : (path : String) (vs : Items) → (only_path path vs ≡ true) ↔ AllText path vs
unfolding only_path
only_path_iff path nil = (λ h. tt, λ h. refl)
only_path_iff path (cons v vs) = (
  λ h.
      let (here, rest) = (and-eq-true_iff _ (only_path path vs)).0 h in
      (text_some v path ((is_text_iff (some v) path).0 here), (only_path_iff path vs).0 rest),
  λ (here, rest).
      (and-eq-true_iff _ (only_path path vs)).1
        ((is_text_iff (some v) path).1 (ap some here), (only_path_iff path vs).1 rest),
)

-- The paths are listed, and none is another than the one.
abbrev pub TouchesOnly : String → Option Json → Type 0
TouchesOnly path v = (paths : Items) × (v ≡ some (arr paths)) × AllText path paths

touched_sound : (path : String) (v : Option Json) → touched_only path v ≡ true → TouchesOnly path v
unfolding touched_only
touched_sound path none h = cc
touched_sound path (some null) h = cc
touched_sound path (some (bool b)) h = cc
touched_sound path (some (int n)) h = cc
touched_sound path (some (frac s)) h = cc
touched_sound path (some (str s)) h = cc
touched_sound path (some (obj fs)) h = cc
touched_sound path (some (arr paths)) h = (paths, refl, (only_path_iff path paths).0 h)

pub touched_only_iff :
    (path : String) (v : Option Json) → (touched_only path v ≡ true) ↔ TouchesOnly path v
unfolding touched_only
touched_only_iff path v = (
  touched_sound path v,
  λ (paths, e, h). ap (touched_only path) e ∙ (only_path_iff path paths).1 h,
)

-- The value is the text that the grader holds, or both are missing.
abbrev pub IsHeld : Option Json → Option String → Type 0
IsHeld v none = v ≡ none
IsHeld v (some t) = v ≡ some (str t)

pub matches-IsHeld_iff : (v : Option Json) (o : Option String) → (matches v o ≡ true) ↔ IsHeld v o
matches-IsHeld_iff v (some t) = matches_iff v t
matches-IsHeld_iff none none = (λ h. refl, λ h. refl)
matches-IsHeld_iff (some v) none = (λ h. absurd (differs v h), λ h. absurd (full h))
  where
    full : some v ≡ none → ⊥
    full h = cc

    differs : (w : Json) → matches (some w) none ≡ true → ⊥
    differs null h = cc
    differs (bool b) h = cc
    differs (int n) h = cc
    differs (frac s) h = cc
    differs (str s) h = cc
    differs (arr xs) h = cc
    differs (obj fs) h = cc
