-- ===== src/Http/Laws/Tag.antt =====
-- Which tags are pins (demo/src/http-atomic.js).
use Prim.Native.Char.{Char, code}
use mathlib.Core.Path.{ap₂}
use mathlib.Core.Bool.{and-eq-true_iff}
use text.Mathlib.TextEquality.{Char-path}
use text.Mathlib.TextLemmas.{nil-append, cons-append}
use capability_demo.Prelude.{
  ◌≡◌, ◌↔◌, refl, sym, ap, ◌∙◌, Bool, true, false, not, String, ◌==◌, eq_iff, eqb, eqb_iff, concat,
  cons-full, includes, begins_with, some, Bool-cases, inl, inr, or-eq-false_iff, not-eq-true_iff,
  if◌then◌else◌,
}
use capability_demo.Http.Request.{is_strong_etag, opaque_tag, tag_body, tag_rest, is_quote}

quote_at : (c : Char) → eqb (code c) 34 ≡ true → c ≡ "\""
quote_at c h = Char-path c "\"" ((eqb_iff (code c) 34).0 h)

quoted_rest :
    (s : String) → tag_rest s ≡ true → (t : String) × (s ≡ concat t "\"") × (includes 34 t ≡ false)
unfolding tag_rest
quoted_rest String.[] h = cc
quoted_rest (String.◌∷◌ c s) h = elim (Bool-cases (eqb (code c) 34)) [
  | inl e ↦
      let ends : (s == "") ≡ true = rw e at h in
      ("", ap₂ String.◌∷◌ (quote_at c e) ((eq_iff s "").0 ends), refl)
  | inr e ↦
      let (t, same, plain) = quoted_rest s (rw e at h) in
      (String.◌∷◌ c t, ap (String.◌∷◌ c) same ∙ sym (cons-append c t "\""), rw e plain)
]

rest_quoted : (t : String) → includes 34 t ≡ false → tag_rest (concat t "\"") ≡ true
unfolding tag_rest
rest_quoted String.[] h = refl
rest_quoted (String.◌∷◌ c t) h =
    let (other, plain) = (or-eq-false_iff (eqb (code c) 34) (includes 34 t)).0 h in
    rw (cons-append c t "\"") (rw other (rest_quoted t plain))

quoted_body :
    (s : String)
    → tag_body s ≡ true
    → (t : String) × (s ≡ concat t "\"") × ((t == "") ≡ false) × (includes 34 t ≡ false)
unfolding tag_body
quoted_body String.[] h = cc
quoted_body (String.◌∷◌ c s) h =
    let (other, rest) = (and-eq-true_iff (not (is_quote c)) (tag_rest s)).0 h in
    let (t, same, plain) = quoted_rest s rest in
    let no_quote : eqb (code c) 34 ≡ false = (not-eq-true_iff _).0 other in
    (
      String.◌∷◌ c t,
      ap (String.◌∷◌ c) same ∙ sym (cons-append c t "\""),
      cons-full c t,
      rw no_quote plain,
    )

body_quoted :
    (t : String) → (t == "") ≡ false → includes 34 t ≡ false → tag_body (concat t "\"") ≡ true
unfolding tag_body
body_quoted String.[] full h = cc
body_quoted (String.◌∷◌ c t) full h =
    let (other, plain) = (or-eq-false_iff (eqb (code c) 34) (includes 34 t)).0 h in
    rw (cons-append c t "\"") (rw other (rest_quoted t plain))

-- A tag that begins with a quote is not weak.
strong_body :
    (c : Char) (s : String) → c ≡ "\"" → is_strong_etag (some (String.◌∷◌ c s)) ≡ tag_body s
unfolding is_strong_etag begins_with opaque_tag
strong_body c s e = rw e (rw (cons-full "\"" s) refl)

only_else : (b y : Bool) → (if b then false else y) ≡ true → y ≡ true
only_else true y h = cc
only_else false y h = h

strong_quote :
    (c : Char) (s : String) → is_strong_etag (some (String.◌∷◌ c s)) ≡ true → is_quote c ≡ true
unfolding is_strong_etag opaque_tag
strong_quote c s h =
    let tag = String.◌∷◌ c s in
    ((and-eq-true_iff (is_quote c) (tag_body s)).0
      (only_else (begins_with tag "w/") _ (only_else (tag == "") _ h))).0

open_quote : (t : String) → concat "\"" t ≡ String.◌∷◌ "\"" t
open_quote t = cons-append "\"" "" t ∙ ap (String.◌∷◌ "\"") (nil-append t)

empty_tag : is_strong_etag (some "") ≡ true → ⊥
unfolding is_strong_etag
empty_tag h = cc

-- A tag is strong exactly when it is some text between two quotes that is not empty and holds no
-- quote: a weak tag, an empty one, `*` or a tag without quotes is never a pin.
pub is_strong_etag-quoted_iff :
    (etag : String)
    → (is_strong_etag (some etag) ≡ true) ↔ (
        (t : String) × (etag ≡ concat "\"" (concat t "\""))
        × ((t == "") ≡ false)
        × (includes 34 t ≡ false))
is_strong_etag-quoted_iff etag = (
  forth etag,
  λ (t, same, full, plain). rw same (
      rw (open_quote (concat t "\""))
        (strong_body "\"" (concat t "\"") refl ∙ body_quoted t full plain)),
)
  where
    forth :
        (etag : String)
        → is_strong_etag (some etag) ≡ true
        → (t : String) × (etag ≡ concat "\"" (concat t "\""))
          × ((t == "") ≡ false)
          × (includes 34 t ≡ false)
    forth String.[] h = absurd (empty_tag h)
    forth (String.◌∷◌ c s) h =
        let e = quote_at c (strong_quote c s h) in
        let (t, same, full, plain) = quoted_body s (sym (strong_body c s e) ∙ h) in
        (t, ap₂ String.◌∷◌ e same ∙ sym (open_quote (concat t "\"")), full, plain)
