-- ===== src/Grant/Token.antt =====
-- The two segments of a token, `<body>.<signature>`, as each reader of tokens takes them apart.
-- (packages/middleware/src/verify-grant.js)
use capability_demo.Prelude.{
  ◌≡◌, inl, inr, refl, ap, sym, ◌∙◌, false, ◌||◌, or-eq-false_iff, String, ◌==◌, join, includes,
  split_on, split_on-join, join-split_on, split_on-All, List, [], ◌∷◌, Option, none, some, All,
  arith, Bool-cases, if◌then◌else◌, eq_iff,
}

both_full : List String → Option (String × String)
both_full (head ∷ (sig ∷ [])) = if head == "" || sig == "" then none else some (head, sig)
both_full _ = none

-- The parsers' reading: exactly two segments, neither empty.
unfoldable pub token_segments : String → Option (String × String)
unfolding both_full split_on
token_segments token = if token == "" then none else both_full (split_on b'.' token)

first_full : List String → Option String
first_full (head ∷ (sig ∷ [])) = if head == "" then none else some head
first_full _ = none

-- The reading of the peeking functions: two segments, the first not empty.
unfoldable pub peek_segment : String → Option String
unfolding first_full split_on
peek_segment token = if token == "" then none else first_full (split_on b'.' token)

-- Two texts without a dot, neither empty, joined by one.
pub record IsSplit (token head sig : String) : Type 0 where
  pub head_plain : includes b'.' head ≡ false
  pub sig_plain : includes b'.' sig ≡ false
  pub head_full : (head == "") ≡ false
  pub sig_full : (sig == "") ≡ false
  pub text : token ≡ join "." (head ∷ sig ∷ [])

both_full_sound :
    (segments : List String) (head sig : String)
    → both_full segments ≡ some (head, sig)
    → (segments ≡ head ∷ (sig ∷ [])) × ((head == "") ≡ false) × ((sig == "") ≡ false)
unfolding both_full
both_full_sound [] head sig h = cc
both_full_sound (x ∷ []) head sig h = cc
both_full_sound (x ∷ (y ∷ (z ∷ zs))) head sig h = cc
both_full_sound (x ∷ (y ∷ [])) head sig h = elim (Bool-cases (x == "" || y == "")) [
  | inl empty ↦ absurd (none-ne-some (rw empty at h))
  | inr full ↦
      let (left, right) = (or-eq-false_iff (x == "") (y == "")).0 full in
      let same : ◌≡◌ {A = Option (String × String)} (some (x, y)) (some (head, sig)) =
        rw full at h in
      let heads : x ≡ head = cc in
      let sigs : y ≡ sig = cc in (cc, rw (← heads) left, rw (← sigs) right)
]
  where
    none-ne-some : ◌≡◌ {A = Option (String × String)} none (some (head, sig)) → ⊥
    none-ne-some q = cc

segments_sound :
    (token : String) (segments : List String) (head sig : String)
    → token ≡ join "." segments
    → All (λ s. includes b'.' s ≡ false) segments
    → both_full segments ≡ some (head, sig)
    → IsSplit token head sig
segments_sound token segments head sig e plain h =
    let (same, left, right) = both_full_sound segments head sig h in
    let (p, (q, _)) = rw same at plain in
    record {
      head_plain = p;
      sig_plain = q;
      head_full = left;
      sig_full = right;
      text = rw same at e;
    }

pub token_segments_sound :
    (token head sig : String) → token_segments token ≡ some (head, sig) → IsSplit token head sig
unfolding token_segments
token_segments_sound token head sig h =
    segments_sound token (split_on b'.' token) head sig (sym (join-split_on b'.' "." token refl))
      (split_on-All b'.' token) (ground arith)

split_of_IsSplit :
    (token head sig : String) → IsSplit token head sig → split_on b'.' token ≡ head ∷ (sig ∷ [])
split_of_IsSplit token head sig s =
    ap (split_on b'.') s.text
    ∙ split_on-join b'.' "." head (sig ∷ []) refl (s.head_plain, (s.sig_plain, tt))

full_of_IsSplit : (token head sig : String) → IsSplit token head sig → (token == "") ≡ false
full_of_IsSplit token head sig s = elim (Bool-cases (token == "")) [
  | inl empty ↦
      let nothing : token ≡ "" = (eq_iff token "").0 empty in
      absurd (one-ne-two (ap (split_on b'.') (sym nothing) ∙ split_of_IsSplit token head sig s))
  | inr full ↦ full
]
  where
    one-ne-two : split_on b'.' "" ≡ head ∷ (sig ∷ []) → ⊥
    one-ne-two q = unfold split_on in cc

pub token_segments_complete :
    (token head sig : String) → IsSplit token head sig → token_segments token ≡ some (head, sig)
unfolding token_segments
token_segments_complete token head sig s =
    rw (full_of_IsSplit token head sig s)
      (rw (split_of_IsSplit token head sig s) (rw (s.head_full, s.sig_full, both_full) refl))

pub peek_segment_complete :
    (token head sig : String) → IsSplit token head sig → peek_segment token ≡ some head
unfolding peek_segment
peek_segment_complete token head sig s =
    rw (full_of_IsSplit token head sig s)
      (rw (split_of_IsSplit token head sig s) (rw (s.head_full, first_full) refl))
