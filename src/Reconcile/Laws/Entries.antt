-- ===== src/Reconcile/Laws/Entries.antt =====
-- Lemmas on lists of entries and on entries that may be confirmed (demo/src/reconcile.js).
use capability_demo.Prelude.{
  ◌≡◌, refl, sym, ap, ◌∙◌, Bool, true, false, not, String, ◌==◌, eq_iff, map, All, List, [], ◌∷◌,
  ◌++◌, Option, none, some, Bool-cases, inl, inr, if◌then◌else◌,
}
use capability_demo.Reconcile.Report.{Adapter, Entry, confirmed, rejected, released, indeterminate}
use capability_demo.Reconcile.Stored.{StoredCheck, proven, doubtful}
use capability_demo.Reconcile.Readers.{entry_by, is_text_of, full_text_of}
use capability_demo.Reconcile.Laws.Proven.{accepts}

-- Lists of entries, one predicate at a time.
pub map-All :
    {A : Type 0} (P : Entry → Type 0) (f : A → Entry) (xs : List A)
    → ((x : A) → P (f x))
    → All P (map f xs)
map-All P f [] h = tt
map-All P f (x ∷ xs) h = (h x, map-All P f xs h)

pub map-All-in :
    {A : Type 0} (P : Entry → Type 0) (Q : A → Type 0) (f : A → Entry) (xs : List A)
    → ((x : A) → Q x → P (f x))
    → All Q xs
    → All P (map f xs)
map-All-in P Q f [] h k = tt
map-All-in P Q f (x ∷ xs) h (p, k) = (h x p, map-All-in P Q f xs h k)

pub append-All : (P : Entry → Type 0) (xs ys : List Entry) → All P xs → All P ys → All P (xs ++ ys)
append-All P [] ys h k = k
append-All P (x ∷ xs) ys (p, h) k = (p, append-All P xs ys h k)

pub weaken-All :
    (P Q : Entry → Type 0) (xs : List Entry) → ((e : Entry) → P e → Q e) → All P xs → All Q xs
weaken-All P Q [] f h = tt
weaken-All P Q (x ∷ xs) f (p, h) = (f x p, weaken-All P Q xs f h)

pub entry_by-confirmed :
    (a : Adapter) (jti : String) (subject status : Option String) (r : StoredCheck)
    → (entry_by a jti subject status r).outcome ≡ confirmed
    → accepts r ≡ true
entry_by-confirmed a jti subject status (proven _ _ _) h = refl
entry_by-confirmed a jti subject status (doubtful code) h = absurd (clash h)
  where
    clash : indeterminate ≡ confirmed → ⊥
    clash e = cc

pub doubt : indeterminate ≡ confirmed → ⊥
doubt e = cc

pub refusal : rejected ≡ confirmed → ⊥
refusal e = cc

pub release : released ≡ confirmed → ⊥
release e = cc

pub not-not : (b : Bool) → not (not b) ≡ b
not-not true = refl
not-not false = refl

pub entry_by-parts :
    (a : Adapter) (jti : String) (subject status : Option String) (r : StoredCheck)
    → ((entry_by a jti subject status r).jti ≡ some jti)
      × ((entry_by a jti subject status r).subject ≡ subject)
      × ((entry_by a jti subject status r).status ≡ status)
entry_by-parts a jti subject status (proven _ _ _) = (refl, refl, refl)
entry_by-parts a jti subject status (doubtful _) = (refl, refl, refl)

pub is_text_of_sound : (o : Option String) (s : String) → not (is_text_of o s) ≡ false → o ≡ some s
is_text_of_sound none s h = absurd (no_text h)
  where
    no_text : true ≡ false → ⊥
    no_text e = cc
is_text_of_sound (some t) s h = ap some ((eq_iff t s).0 (sym (not-not (t == s)) ∙ ap not h))

pub full_text_of_sound : (o : Option String) (s : String) → full_text_of o ≡ some s → o ≡ some s
full_text_of_sound none s h = cc
full_text_of_sound (some t) s h = elim (Bool-cases (t == "")) [
  | inl e ↦ let missing : none ≡ some s = rw e at h in cc
  | inr e ↦ rw e at h
]

-- A confirmed entry has the property.
abbrev pub Backs : (Entry → Type 0) → Entry → Type 0
Backs P e = e.outcome ≡ confirmed → P e

pub if-Backs :
    (P : Entry → Type 0) (b : Bool) (x y : Entry)
    → (x.outcome ≡ confirmed → ⊥)
    → (b ≡ false → Backs P y)
    → Backs P (if b then x else y)
if-Backs P true x y stop k h = absurd (stop h)
if-Backs P false x y stop k h = k refl h

pub if-Backs-else :
    (P : Entry → Type 0) (b : Bool) (x y : Entry)
    → Backs P x
    → (b ≡ false → Backs P y)
    → Backs P (if b then x else y)
if-Backs-else P true x y p k = p
if-Backs-else P false x y p k = k refl
