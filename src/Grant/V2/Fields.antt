-- ===== src/Grant/V2/Fields.antt =====
-- The field rules of a v2 token, in words of their own (packages/middleware/src/verify-grant.js).
use Prim.Native.Nat.{ℕ}
use mathlib.Core.Bool.{and-eq-true_iff}
use text.Mathlib.Text.{starts_with}
use capability_demo.Prelude.{
  ◌≡◌, ◌≢◌, ◌↔◌, ◌⊎◌, refl, sym, ap, ◌∙◌, true, false, not, String, ◌==◌, eq_iff, pos, negsuc, leb,
  arith, any, lowers_to, All, List, [], ◌∷◌, Option, none, some, some-inj, Bool-cases, Option-cases,
  inl, inr,
}
use capability_demo.Json.{
  Json, null, bool, int, frac, str, arr, obj, is_string, is_string-eq, text_or_empty,
}
use capability_demo.Grant.V2.{
  is_full_string, is_positive, before_scheme_mark, scheme_ok, target_uri_scheme_ok,
}

-- A text that is not empty.
abbrev pub IsFull : Option Json → Type 0
IsFull v = (s : String) × (v ≡ some (str s)) × (s ≢ "")

full_test : (s : String) → (not (s == "") ≡ true) ↔ (s ≢ "")
full_test s = (λ h e. ground (arith, eq_iff s ""), λ h. ground (arith, eq_iff s ""))

pub is_full_string_iff : (v : Option Json) → (is_full_string v ≡ true) ↔ IsFull v
is_full_string_iff v = (
  λ h.
      let (text, full) = (and-eq-true_iff (is_string v) _).0 h in
      (text_or_empty v, is_string-eq v text, (full_test (text_or_empty v)).0 full),
  λ (s, e, n). ap is_full_string e ∙ (full_test s).1 n,
)

pub All-IsFull_iff :
    (get_field : String → Option Json) (ks : List String)
    → All (λ k. is_full_string (get_field k) ≡ true) ks ↔ All (λ k. IsFull (get_field k)) ks
All-IsFull_iff get_field [] = (λ h. tt, λ h. tt)
All-IsFull_iff get_field (k ∷ ks) = (
  λ (h, hs). ((is_full_string_iff (get_field k)).0 h, (All-IsFull_iff get_field ks).0 hs),
  λ (h, hs). ((is_full_string_iff (get_field k)).1 h, (All-IsFull_iff get_field ks).1 hs),
)

-- A number from one on.
abbrev pub IsPositive : Option Json → Type 0
IsPositive v = (n : ℕ) × (v ≡ some (int (pos n))) × (n ≢ 0)

is_positive-IsPositive : (v : Option Json) → is_positive v ≡ true → IsPositive v
is_positive-IsPositive none h = cc
is_positive-IsPositive (some null) h = cc
is_positive-IsPositive (some (bool b)) h = cc
is_positive-IsPositive (some (int (pos n))) h = (n, refl, λ e. ground arith)
is_positive-IsPositive (some (int (negsuc n))) h = cc
is_positive-IsPositive (some (frac s)) h = cc
is_positive-IsPositive (some (str s)) h = cc
is_positive-IsPositive (some (arr xs)) h = cc
is_positive-IsPositive (some (obj fs)) h = cc

positive_complete : (n : ℕ) → n ≢ 0 → leb 1 n ≡ true
positive_complete n h = ground arith

pub is_positive_iff : (v : Option Json) → (is_positive v ≡ true) ↔ IsPositive v
is_positive_iff v =
    (is_positive-IsPositive v, λ (n, e, full). ap is_positive e ∙ positive_complete n full)

-- The text before the first `://`.
unfoldable pub IsBeforeMark : String → String → Type 0
IsBeforeMark String.[] p = ⊥
IsBeforeMark (String.◌∷◌ c s) p =
    ((starts_with (String.◌∷◌ c s) "://" ≡ true) × (p ≡ ""))
    ⊎ ((starts_with (String.◌∷◌ c s) "://" ≡ false)
        × ((q : String) × (p ≡ String.◌∷◌ c q) × IsBeforeMark s q))

mark_sound : (s p : String) → before_scheme_mark s ≡ some p → IsBeforeMark s p
unfolding before_scheme_mark IsBeforeMark
mark_sound String.[] p h = cc
mark_sound (String.◌∷◌ c s) p h = elim (Bool-cases (starts_with (String.◌∷◌ c s) "://")) [
  | inl e ↦ inl (e, sym (some-inj (rw (e, before_scheme_mark) at h)))
  | inr e ↦ elim (Option-cases (before_scheme_mark s)) [
    | inl f ↦ let nothing : none ≡ some p = rw (e, f, before_scheme_mark) at h in cc
    | inr (q, f) ↦
        let same : some (String.◌∷◌ c q) ≡ some p = rw (e, f, before_scheme_mark) at h in
        inr (e, (q, sym (some-inj same), mark_sound s q f))
  ]
]

mark_complete : (s p : String) → IsBeforeMark s p → before_scheme_mark s ≡ some p
unfolding before_scheme_mark IsBeforeMark
mark_complete String.[] p h = absurd h
mark_complete (String.◌∷◌ c s) p (inl (e, same)) = rw (e, before_scheme_mark) (ap some (sym same))
mark_complete (String.◌∷◌ c s) p (inr (e, (q, same, h))) =
    rw (e, mark_complete s q h, before_scheme_mark) (ap some (sym same))

-- What stands before the first `://` is, in lower case, one of the schemes.
abbrev pub IsSchemed : Option Json → Type 0
IsSchemed v =
    (uri : String) × (v ≡ some (str uri))
    × (uri ≢ "")
    × ((scheme : String) × IsBeforeMark uri scheme
        × (scheme ≢ "")
        × (any (λ t. lowers_to scheme t) ("fs" ∷ "git" ∷ "api" ∷ "db" ∷ "registry" ∷ "deploy" ∷ [])
            ≡ true))

scheme_sound :
    (o : Option String)
    → scheme_ok o ≡ true
    → (p : String) × (o ≡ some p)
      × (p ≢ "")
      × (any (λ t. lowers_to p t) ("fs" ∷ "git" ∷ "api" ∷ "db" ∷ "registry" ∷ "deploy" ∷ []) ≡ true)
unfolding scheme_ok
scheme_sound none h = cc
scheme_sound (some p) h =
    let (full, known) = (and-eq-true_iff (not (p == "")) _).0 h in
    (p, refl, (full_test p).0 full, known)

pub target_uri_scheme_ok_iff : (v : Option Json) → (target_uri_scheme_ok v ≡ true) ↔ IsSchemed v
unfolding target_uri_scheme_ok scheme_ok
target_uri_scheme_ok_iff v = (
  λ h.
      let (full, ok) = (and-eq-true_iff (is_full_string v) _).0 h in
      let (uri, e, n) = (is_full_string_iff v).0 full in
      let (p, mark, q, known) = scheme_sound (before_scheme_mark (text_or_empty v)) ok in
      (
        uri,
        e,
        n,
        (
          p,
          mark_sound uri p (ap (λ x. before_scheme_mark (text_or_empty x)) (sym e) ∙ mark),
          q,
          known,
        ),
      ),
  λ (uri, e, n, (p, mark, q, known)).
      ap target_uri_scheme_ok e
      ∙ (and-eq-true_iff (is_full_string (some (str uri))) _).1 (
        (is_full_string_iff (some (str uri))).1 (uri, refl, n),
        ap scheme_ok (mark_complete uri p mark)
            ∙ (and-eq-true_iff (not (p == "")) _).1 ((full_test p).1 q, known),
      ),
)
