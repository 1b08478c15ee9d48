-- ===== src/Prelude/Text.antt =====
-- JavaScript's string operations over the native texts, walked by code point.
use Prim.Native.Nat.{ℕ, ◌+◌}
use Prim.Native.Char.{Char, code}
use Prim.Native.String
use Prim.Native.String.{String}
use mathlib.Core.Path.{◌≡◌, refl, sym, ap, ap₂, ◌∙◌}
use mathlib.Core.Logic.{inl, inr}
use mathlib.Core.Bool.{Bool, true, false, ◌||◌, ◌&&◌}
use mathlib.Core.List.{List, [], ◌∷◌}
use mathlib.Core.Option.{Option, none, some}
use native.Mathlib.Omega.{arith}
use text.Mathlib.Text.{◌==◌}
use text.Mathlib.TextEquality.{Char-path, eq_iff}
use text.Mathlib.TextLemmas.{nil-append, cons-append}
use capability_demo.Prelude.Tests.{leb, eqb, eqb_iff, if◌then◌else◌, Bool-cases, or-eq-false_iff}
use capability_demo.Prelude.Lists.{any, All}

abbrev pub concat : String → String → String
concat s t = String.◌++◌ s t

-- `s.includes(c)` for one character, given by its code
abbrev pub includes : ℕ → String → Bool
includes d String.[] = false
includes d (String.◌∷◌ c s) = eqb (code c) d || includes d s

-- `keys.includes(k)`
abbrev pub elem : String → List String → Bool
elem k xs = any (λ x. x == k) xs

-- `parts.join(sep)`
abbrev pub join : String → List String → String
join sep [] = ""
join sep (x ∷ []) = x
join sep (x ∷ (y ∷ rest)) = concat x (concat sep (join sep (y ∷ rest)))

abbrev push_head : Char → List String → List String
push_head c [] = String.◌∷◌ c String.[] ∷ []
push_head c (x ∷ xs) = String.◌∷◌ c x ∷ xs

-- `s.split(c)` for one character, given by its code
unfoldable pub split_on : ℕ → String → List String
split_on d String.[] = "" ∷ []
split_on d (String.◌∷◌ c s) =
    let rest = split_on d s in if eqb (code c) d then "" ∷ rest else push_head c rest

pub split_on_plain : (d : ℕ) (s : String) → includes d s ≡ false → split_on d s ≡ s ∷ []
unfolding split_on
split_on_plain d String.[] h = refl
split_on_plain d (String.◌∷◌ c s) h =
    let (here, later) = (or-eq-false_iff (eqb (code c) d) (includes d s)).0 h in
    rw (here, split_on_plain d s later) refl

split_on-concat :
    (d : ℕ) (sep : Char) (s t : String)
    → code sep ≡ d
    → includes d s ≡ false
    → split_on d (concat s (String.◌∷◌ sep t)) ≡ s ∷ split_on d t
unfolding split_on
split_on-concat d sep String.[] t e h = rw nil-append (rw ((eqb_iff (code sep) d).1 e) refl)
split_on-concat d sep (String.◌∷◌ c s) t e h =
    let (here, later) = (or-eq-false_iff (eqb (code c) d) (includes d s)).0 h in
    rw cons-append (rw (here, split_on-concat d sep s t e later) refl)

-- What `split` returns is never empty, holds no separator, and joins back to the text.
abbrev IsCons : List String → Type 0
IsCons [] = ⊥
IsCons (x ∷ xs) = Unit

push_head-join :
    (c sep : Char) (xs : List String)
    → IsCons xs
    → join (String.◌∷◌ sep String.[]) (push_head c xs)
      ≡ String.◌∷◌ c (join (String.◌∷◌ sep String.[]) xs)
push_head-join c sep [] h = absurd h
push_head-join c sep (x ∷ []) h = refl
push_head-join c sep (x ∷ (y ∷ ys)) h = cons-append c x _

split_on-IsCons : (d : ℕ) (s : String) → IsCons (split_on d s)
unfolding split_on
split_on-IsCons d String.[] = tt
split_on-IsCons d (String.◌∷◌ c s) = elim (Bool-cases (eqb (code c) d)) [
  | inl same ↦ rw same tt
  | inr other ↦ rw other (pushed (split_on d s))
]
  where
    pushed : (xs : List String) → IsCons (push_head c xs)
    pushed [] = tt
    pushed (x ∷ xs) = tt

open_join :
    (sep : Char) (xs : List String)
    → IsCons xs
    → join (String.◌∷◌ sep String.[]) ("" ∷ xs)
      ≡ String.◌∷◌ sep (join (String.◌∷◌ sep String.[]) xs)
open_join sep [] h = absurd h
open_join sep (x ∷ xs) h =
    nil-append _
    ∙ cons-append sep String.[] (join (String.◌∷◌ sep String.[]) (x ∷ xs))
    ∙ ap (String.◌∷◌ sep) (nil-append _)

pub join-split_on :
    (d : ℕ) (sep : Char) (s : String)
    → code sep ≡ d
    → join (String.◌∷◌ sep String.[]) (split_on d s) ≡ s
unfolding split_on
join-split_on d sep String.[] e = refl
join-split_on d sep (String.◌∷◌ c s) e = elim (Bool-cases (eqb (code c) d)) [
  | inl same ↦
      let at_sep : c ≡ sep = Char-path c sep ((eqb_iff (code c) d).0 same ∙ sym e) in
      rw same (
        open_join sep (split_on d s) (split_on-IsCons d s)
        ∙ ap₂ String.◌∷◌ (sym at_sep) (join-split_on d sep s e))
  | inr other ↦ rw other (
      push_head-join c sep (split_on d s) (split_on-IsCons d s)
      ∙ ap (String.◌∷◌ c) (join-split_on d sep s e))
]

push_head-All :
    (d : ℕ) (c : Char) (xs : List String)
    → eqb (code c) d ≡ false
    → All (λ s. includes d s ≡ false) xs
    → All (λ s. includes d s ≡ false) (push_head c xs)
push_head-All d c [] h k = (ground arith, tt)
push_head-All d c (x ∷ xs) h (p, k) = (ground arith, k)

pub split_on-All : (d : ℕ) (s : String) → All (λ t. includes d t ≡ false) (split_on d s)
unfolding split_on
split_on-All d String.[] = (refl, tt)
split_on-All d (String.◌∷◌ c s) = elim (Bool-cases (eqb (code c) d)) [
  | inl same ↦ rw same (refl, split_on-All d s)
  | inr other ↦ rw other (push_head-All d c (split_on d s) other (split_on-All d s))
]

-- Joining parts that do not hold the separator loses nothing: splitting gives them back.
pub split_on-join :
    (d : ℕ) (sep : Char) (x : String) (xs : List String)
    → code sep ≡ d
    → All (λ s. includes d s ≡ false) (x ∷ xs)
    → split_on d (join (String.◌∷◌ sep String.[]) (x ∷ xs)) ≡ x ∷ xs
split_on-join d sep x [] e (h, _) = split_on_plain d x h
split_on-join d sep x (y ∷ ys) e (h, k) =
    rw (cons-append sep String.[] (join (String.◌∷◌ sep String.[]) (y ∷ ys))) (
      rw (nil-append (join (String.◌∷◌ sep String.[]) (y ∷ ys))) (
        split_on-concat d sep x (join (String.◌∷◌ sep String.[]) (y ∷ ys)) e h
        ∙ ap (λ r. x ∷ r) (split_on-join d sep y ys e k)))

-- So two joins of such parts are equal only if the parts are.
pub join-injective :
    (d : ℕ) (sep : Char) (x y : String) (xs ys : List String)
    → code sep ≡ d
    → All (λ s. includes d s ≡ false) (x ∷ xs)
    → All (λ s. includes d s ≡ false) (y ∷ ys)
    → join (String.◌∷◌ sep String.[]) (x ∷ xs) ≡ join (String.◌∷◌ sep String.[]) (y ∷ ys)
    → ◌≡◌ {A = List String} (x ∷ xs) (y ∷ ys)
join-injective d sep x y xs ys e h k same =
    sym (split_on-join d sep x xs e h) ∙ ap (split_on d) same ∙ split_on-join d sep y ys e k

is_nil : String → Bool
is_nil String.[] = true
is_nil (String.◌∷◌ c s) = false

-- A text that begins with a character is not empty.
pub concat-full : (c : Char) (s t : String) → concat (String.◌∷◌ c s) t ≡ String.[] → ⊥
unfolding is_nil
concat-full c s t e = let test : false ≡ true = ap is_nil (sym (cons-append c s t) ∙ e) in cc

pub cons-full : (c : Char) (s : String) → (String.◌∷◌ c s == "") ≡ false
unfolding is_nil
cons-full c s = elim (Bool-cases (String.◌∷◌ c s == "")) [
  | inl e ↦ let test : false ≡ true = ap is_nil ((eq_iff (String.◌∷◌ c s) "").0 e) in cc
  | inr e ↦ e
]

-- A lower-case ASCII letter for an upper-case one.
lower_code : ℕ → ℕ
lower_code c = if leb 65 c && leb c 90 then c + 32 else c

same_lowered : String → String → Bool
same_lowered String.[] String.[] = true
same_lowered (String.◌∷◌ c s) (String.◌∷◌ d t) =
    eqb (lower_code (code c)) (code d) && same_lowered s t
same_lowered _ _ = false

-- `s.toLowerCase() === t` for ASCII texts
unfoldable pub lowers_to : String → String → Bool
unfolding same_lowered lower_code
lowers_to s t = same_lowered s t

-- `/^t/i.test(s)` for an ASCII text `t` in lower case
unfoldable pub begins_with : String → String → Bool
unfolding lower_code
begins_with s String.[] = true
begins_with String.[] (String.◌∷◌ d t) = false
begins_with (String.◌∷◌ c s) (String.◌∷◌ d t) =
    eqb (lower_code (code c)) (code d) && begins_with s t

-- The text before the last occurrence of a character, given by its code.
unfoldable pub before_last : ℕ → String → Option String
before_last d String.[] = none
before_last d (String.◌∷◌ c s) = elim (before_last d s) [
  | some t ↦ some (String.◌∷◌ c t)
  | none ↦ if eqb (code c) d then some "" else none
]

-- What follows a prefix, if it is one.
unfoldable pub after_prefix : String → String → Option String
after_prefix String.[] s = some s
after_prefix (String.◌∷◌ d t) String.[] = none
after_prefix (String.◌∷◌ d t) (String.◌∷◌ c s) =
    let rest = after_prefix t s in if eqb (code c) (code d) then rest else none

-- The white space that `trim` removes.
unfoldable pub is_space : ℕ → Bool
is_space c =
    (leb 9 c && leb c 13)
    || (eqb c 32 || eqb c 160)
    || (eqb c 5760 || (leb 8192 c && leb c 8202))
    || (eqb c 8232 || eqb c 8233)
    || (eqb c 8239 || eqb c 8287)
    || (eqb c 12288 || eqb c 65279)

unfoldable pub trim_start : String → String
unfolding is_space
trim_start String.[] = ""
trim_start (String.◌∷◌ c s) =
    let rest = trim_start s in if is_space (code c) then rest else String.◌∷◌ c s

unfoldable pub trim_end : String → String
unfolding is_space
trim_end String.[] = ""
trim_end (String.◌∷◌ c s) =
    let rest = trim_end s in if rest == "" && is_space (code c) then "" else String.◌∷◌ c rest

-- `s.trim()`
unfoldable pub trim : String → String
unfolding trim_start trim_end
trim s = trim_end (trim_start s)
