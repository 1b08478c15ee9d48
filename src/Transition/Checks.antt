-- ===== src/Transition/Checks.antt =====
-- When the checks of a grade hold, one by one (demo/src/target-state-transition.js).
use mathlib.Core.Bool.{and-eq-true_iff}
use capability_demo.Prelude.{
  ◌≡◌, ◌↔◌, refl, sym, ap, ◌∙◌, Bool, true, false, String, select, map, All, List, [], ◌∷◌, ◌++◌,
  Option, none, some, some-inj,
}
use capability_demo.Json.{Json, null, bool, int, frac, arr, obj, str, get, is_text_iff}
use capability_demo.Transition.Attested.{matches}
use capability_demo.Transition.Grade.{
  carried_unverified, proven_by_trusted_executor, Check, CatFile, parents_of, note, note_if,
  is_single, parent_check, moved_from, flatten, has_failed, failures_of, state_of,
}

abbrev pub Fine : Check → Type 0
Fine c = has_failed c ≡ false

pub append_iff : (xs ys : List Check) → All Fine (xs ++ ys) ↔ (All Fine xs × All Fine ys)
append_iff [] ys = (λ h. (tt, h), λ h. h.1)
append_iff (x ∷ xs) ys = (
  λ h. let (p, q) = (append_iff xs ys).0 h.1 in ((h.0, p), q),
  λ h. (h.0.0, (append_iff xs ys).1 (h.0.1, h.1)),
)

pub flatten_iff : (xss : List (List Check)) → All Fine (flatten xss) ↔ All (All Fine) xss
unfolding flatten
flatten_iff [] = (λ h. tt, λ h. tt)
flatten_iff (xs ∷ xss) = (
  λ h. let (p, q) = (append_iff xs (flatten xss)).0 h in (p, (flatten_iff xss).0 q),
  λ h. (append_iff xs (flatten xss)).1 (h.0, (flatten_iff xss).1 h.1),
)

abbrev pub id_of : Check → String
id_of c = c.id

pub state_cons :
    (b : Bool) (c : Check) (rest : List Check)
    → (state_of (map id_of (elim b [ true ↦ c ∷ rest | false ↦ rest ]))
        ≡ proven_by_trusted_executor)
      ↔ ((b ≡ false) × (state_of (map id_of rest) ≡ proven_by_trusted_executor))
state_cons true c rest = (λ h. absurd (shut h), λ h. absurd (other h.0))
  where
    shut : carried_unverified ≡ proven_by_trusted_executor → ⊥
    shut h = cc

    other : true ≡ false → ⊥
    other h = cc
state_cons false c rest = (λ h. (refl, h), λ h. h.1)

-- No failure is listed exactly when no check failed.
pub state_of-proven_iff :
    (cs : List Check) → (state_of (failures_of cs) ≡ proven_by_trusted_executor) ↔ All Fine cs
unfolding failures_of
state_of-proven_iff [] = (λ h. tt, λ h. refl)
state_of-proven_iff (c ∷ cs) = (
  λ h.
      let (p, q) = (state_cons (has_failed c) c (select has_failed cs)).0 h in
      (p, (state_of-proven_iff cs).0 q),
  λ h. (state_cons (has_failed c) c (select has_failed cs)).1 (h.0, (state_of-proven_iff cs).1 h.1),
)

-- A value that the grader holds has the property.
abbrev pub Holds : Option String → (String → Type 0) → Type 0
Holds o P = (v : String) → o ≡ some v → P v

pub note-Fine_iff : (id : String) (b : Bool) → Fine (note id b) ↔ (b ≡ true)
note-Fine_iff id true = (λ h. refl, λ h. refl)
note-Fine_iff id false = (λ h. sym h, λ h. sym h)

pub note_if_iff :
    (o : Option String) (id : String) (test : String → Bool)
    → All Fine (note_if o id test) ↔ Holds o (λ v. test v ≡ true)
note_if_iff none id test = (λ h v e. absurd (nothing v e), λ h. tt)
  where
    nothing : (v : String) → none ≡ some v → ⊥
    nothing v e = cc
note_if_iff (some v) id test = (
  λ h w e. ap test (sym (some-inj e)) ∙ (note-Fine_iff id (test v)).0 h.0,
  λ h. ((note-Fine_iff id (test v)).1 (h v refl), tt),
)

-- A value is the text that the grader holds.
pub matches_iff : (v : Option Json) (t : String) → (matches v (some t) ≡ true) ↔ (v ≡ some (str t))
matches_iff none t = (λ h. cc, λ h. cc)
matches_iff (some null) t = (λ h. cc, λ h. cc)
matches_iff (some (bool b)) t = (λ h. cc, λ h. cc)
matches_iff (some (int n)) t = (λ h. cc, λ h. cc)
matches_iff (some (frac s)) t = (λ h. cc, λ h. cc)
matches_iff (some (arr xs)) t = (λ h. cc, λ h. cc)
matches_iff (some (obj fs)) t = (λ h. cc, λ h. cc)
matches_iff (some (str s)) t = is_text_iff (some (str s)) t

-- The field of the observation is the text that the grader holds.
abbrev pub Shows : Json → String → Option String → Type 0
Shows seen k o = Holds o (λ v. get k seen ≡ some (str v))

pub note_if-Shows_iff :
    (seen : Json) (k id : String) (o : Option String)
    → All Fine (note_if o id (λ v. matches (get k seen) (some v))) ↔ Shows seen k o
note_if-Shows_iff seen k id o = (
  λ h v e. (matches_iff (get k seen) v).0 ((note_if_iff o id _).0 h v e),
  λ h. (note_if_iff o id _).1 (λ v e. (matches_iff (get k seen) v).1 (h v e)),
)

pub moved_from_iff :
    (seen : Json) (o : Option String)
    → All Fine (note_if o "state_transition" (λ v. moved_from (get "before_commit" seen) v))
      ↔ Shows seen "before_commit" o
moved_from_iff seen o = (
  λ h v e.
      (matches_iff (get "before_commit" seen) v).0
        (((and-eq-true_iff _ _).0 ((note_if_iff o "state_transition" _).0 h v e)).1),
  λ h.
      (note_if_iff o "state_transition" _).1
        (λ v e. ap (λ x. moved_from x v) (h v e) ∙ (matches_iff (some (str v)) v).1 refl),
)

pub parent_iff :
    (o : Option (String × String)) (cat_file : CatFile) (base : Option String)
    → Fine (parent_check o cat_file base) ↔ (
        (repo commit : String)
        → ◌≡◌ {A = Option (String × String)} o (some (repo, commit))
        → is_single (parents_of cat_file repo commit) base ≡ true)
unfolding parent_check
parent_iff none cat_file base = (λ h r c e. absurd (nothing r c e), λ h. refl)
  where
    nothing : (r c : String) → ◌≡◌ {A = Option (String × String)} none (some (r, c)) → ⊥
    nothing r c e = cc
parent_iff (some (repo, commit)) cat_file base = (
  λ h r c e.
      ap (λ (x : String × String). is_single (parents_of cat_file x.0 x.1) base) (sym (some-inj e))
      ∙ (note-Fine_iff "single_parent" _).0 h,
  λ h. (note-Fine_iff "single_parent" _).1 (h repo commit refl),
)
