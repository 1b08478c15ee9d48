-- ===== src/Reconcile/Laws/Target.antt =====
-- The ref that an attestation of the git adapter was signed for, and the window of a key
-- (demo/src/reconcile.js, demo/src/posture.js).
use Prim.Native.Char.{Char, code}
use text.Mathlib.TextLemmas.{nil-append, cons-append}
use capability_demo.Prelude.{
  ℕ, ℤ, ◌+ℤ◌, ◌-ℤ◌, ltb_ℤ-eq-false_iff, ◌≤ℤ◌, ◌≡◌, ◌↔◌, refl, ap, ◌∙◌, Bool, true, false, eqb,
  eqb_iff, String, concat, includes, before_last, after_prefix, Option, none, some, some-inj,
  or-eq-false_iff, if◌then◌else◌,
}
use capability_demo.Json.{Json}
use capability_demo.Runtime.{Node}
use capability_demo.Git.Execute.{git_target_descriptor}
use capability_demo.Reconcile.Keyring.{
  inside, outside_key_window, non_finite_key_window, window_of, check_key_window,
  posture_clock_skew_leeway_ms, finite_or, text_of_any,
}
use capability_demo.Reconcile.Stored.{ref_before, git_ref_of_target}

no_last : (d : ℕ) (s : String) → includes d s ≡ false → before_last d s ≡ none
unfolding before_last
no_last d String.[] h = refl
no_last d (String.◌∷◌ c s) h =
    let (here, later) = (or-eq-false_iff (eqb (code c) d) (includes d s)).0 h in
    rw (no_last d s later) (rw here refl)

last_kept :
    (d : ℕ) (sep : Char) (s t : String)
    → code sep ≡ d
    → includes d t ≡ false
    → before_last d (concat s (String.◌∷◌ sep t)) ≡ some s
unfolding before_last
last_kept d sep String.[] t e h =
    rw (nil-append (String.◌∷◌ sep t)) (rw (no_last d t h) (rw ((eqb_iff (code sep) d).1 e) refl))
last_kept d sep (String.◌∷◌ c s) t e h =
    rw (cons-append c s (String.◌∷◌ sep t)) (rw (last_kept d sep s t e h, before_last) refl)

prefix_removed : (p s : String) → after_prefix p (concat p s) ≡ some s
unfolding after_prefix
prefix_removed String.[] s = rw (nil-append s) refl
prefix_removed (String.◌∷◌ c p) s =
    rw (cons-append c p s) (rw ((eqb_iff (code c) (code c)).1 refl) (prefix_removed p s))

includes-concat :
    (d : ℕ) (s t : String)
    → includes d s ≡ false
    → includes d t ≡ false
    → includes d (concat s t) ≡ false
includes-concat d String.[] t h k = rw (nil-append t) k
includes-concat d (String.◌∷◌ c s) t h k =
    let (here, later) = (or-eq-false_iff (eqb (code c) d) (includes d s)).0 h in
    rw (cons-append c s t) (rw here (includes-concat d s t later k))

-- The ref of a git target is read back from its descriptor, even where it holds an `@`, as long as
-- neither state does.
pub git_ref_of_target-git_target_descriptor :
    (ref before after : String)
    → includes b'@' before ≡ false
    → includes b'@' after ≡ false
    → git_ref_of_target (git_target_descriptor ref before after) ≡ some ref
unfolding git_ref_of_target git_target_descriptor
git_ref_of_target-git_target_descriptor ref before after h k =
    let states = concat before (concat "->" after) in
    let plain : includes b'@' states ≡ false =
      includes-concat b'@' before (concat "->" after) h (includes-concat b'@' "->" after refl k) in
    let opened : concat "@" states ≡ String.◌∷◌ "@" states =
      cons-append "@" "" states ∙ ap (String.◌∷◌ "@") (nil-append states) in
    ap ref_before (prefix_removed "git:" (concat ref (concat "@" states)))
    ∙ ap (λ t. before_last b'@' (concat ref t)) opened
    ∙ last_kept b'@' "@" ref states refl plain

-- A time that a window contains, give or take the leeway.
unfoldable pub IsWithin : (leeway t from until : ℤ) → Type 0
unfolding ◌+ℤ◌ ◌-ℤ◌
IsWithin leeway t from until = (from ≤ℤ (t +ℤ leeway)) × ((t -ℤ leeway) ≤ℤ until)

inside_iff : (b : Bool) → ((if b then outside_key_window else inside) ≡ inside) ↔ (b ≡ false)
inside_iff true = (λ h. cc, λ h. cc)
inside_iff false = (λ h. refl, λ h. refl)

window_of-IsWithin_iff :
    (leeway t from until : ℤ)
    → (window_of leeway (some t) (some from) (some until) ≡ inside) ↔ IsWithin leeway t from until
unfolding window_of IsWithin
window_of-IsWithin_iff leeway t from until = (
  λ h.
      let (early, late) = (or-eq-false_iff _ _).0 ((inside_iff _).0 h) in
      (
        (ltb_ℤ-eq-false_iff (t +ℤ leeway) from).0 early,
        (ltb_ℤ-eq-false_iff until (t -ℤ leeway)).0 late,
      ),
  λ w. (inside_iff _).1 (
      (or-eq-false_iff _ _).1 (
        (ltb_ℤ-eq-false_iff (t +ℤ leeway) from).1 w.0,
        (ltb_ℤ-eq-false_iff until (t -ℤ leeway)).1 w.1,
      )),
)

no_window : non_finite_key_window ≡ inside → ⊥
no_window h = cc

unfoldable pub IsInside : ℤ → Option ℤ → Option ℤ → Option ℤ → Type 0
IsInside leeway t from until =
    (a : ℤ) × (b : ℤ) × (c : ℤ) × (t ≡ some a)
    × (from ≡ some b)
    × (until ≡ some c)
    × IsWithin leeway a b c

window_of-inside_iff :
    (leeway : ℤ) (t from until : Option ℤ)
    → (window_of leeway t from until ≡ inside) ↔ IsInside leeway t from until
unfolding window_of IsInside
window_of-inside_iff leeway (some t) (some from) (some until) = (
  λ h. (t, from, until, refl, refl, refl, (window_of-IsWithin_iff leeway t from until).0 h),
  λ (a, b, c, p, q, r, w).
      rw (some-inj p, some-inj q, some-inj r) ((window_of-IsWithin_iff leeway a b c).1 w),
)
window_of-inside_iff leeway none from until =
    (λ h. absurd (no_window h), λ (a, b, c, p, q, r, w). cc)
window_of-inside_iff leeway (some t) none until =
    (λ h. absurd (no_window h), λ (a, b, c, p, q, r, w). cc)
window_of-inside_iff leeway (some t) (some from) none =
    (λ h. absurd (no_window h), λ (a, b, c, p, q, r, w). cc)

-- A key window contains a time exactly when the three dates parse and the time, put forward and
-- back by the leeway, is not before the start and not after the end; the leeway is half a minute
-- where none is given.
pub check_key_window-inside_iff :
    (node : Node) (measured_at : String) (valid_from valid_until : Option Json) (leeway : Option ℤ)
    → (check_key_window node measured_at valid_from valid_until leeway ≡ inside) ↔ (
        (a : ℤ) × (b : ℤ) × (c : ℤ) × (node.date_parse measured_at ≡ some a)
        × (node.date_parse (text_of_any node valid_from) ≡ some b)
        × (node.date_parse (text_of_any node valid_until) ≡ some c)
        × IsWithin (finite_or leeway posture_clock_skew_leeway_ms) a b c)
unfolding check_key_window IsInside
check_key_window-inside_iff node measured_at valid_from valid_until leeway =
    window_of-inside_iff _ _ _ _
