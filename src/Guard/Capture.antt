-- ===== src/Guard/Capture.antt =====
-- Over every sequence of events the capture calls the handler at most once, with a body within the
-- limit (`captureRawBody` of packages/middleware/src/index.js).
use Prim.Native.Nat.{ℕ, ◌+◌, ◌≤◌}
use mathlib.Core.List.{append-nil, append_assoc}
use capability_demo.Prelude.{
  ◌≡◌, refl, sym, ap, ◌∙◌, Bool, true, false, ltb, length, List, [], ◌∷◌, ◌++◌, some, some-inj,
  if◌then◌else◌, arith, Bool-cases, inl, inr,
}
use capability_demo.Guard.Body.{
  Event, data_event, end_event, error_event, Effect, next, next_error, too_large, Capture, initial,
  handle, handle_all,
}

-- How often the request goes on.
abbrev pub goes_on : List Effect → ℕ
goes_on [] = 0
goes_on (next ∷ es) = 1 + goes_on es
goes_on (next_error ∷ es) = 1 + goes_on es
goes_on (too_large ∷ es) = goes_on es

goes_on-append : (xs ys : List Effect) → goes_on (xs ++ ys) ≡ goes_on xs + goes_on ys
goes_on-append [] ys = ground arith
goes_on-append (next ∷ xs) ys = rw (goes_on-append xs ys) (ground arith)
goes_on-append (next_error ∷ xs) ys = rw (goes_on-append xs ys) (ground arith)
goes_on-append (too_large ∷ xs) ys = rw (goes_on-append xs ys) (ground arith)

length-append : (xs ys : List ℕ) → length (xs ++ ys) ≡ length xs + length ys
length-append [] ys = ground arith
length-append (x ∷ xs) ys = rw (length-append xs ys) (ground arith)

-- The data events of a request.
abbrev pub data_events : List (List ℕ) → List Event
data_events [] = []
data_events (chunk ∷ rest) = data_event chunk ∷ data_events rest

abbrev pub all_bytes : List (List ℕ) → List ℕ
all_bytes [] = []
all_bytes (chunk ∷ rest) = chunk ++ all_bytes rest

module _ (limit : ℕ) where
  -- What one event does to the flag.
  record IsStep (c : Capture) (o : Capture × List Effect) : Type 0 where
    once : c.done ≡ false → goes_on o.1 ≤ 1
    then_done : c.done ≡ false → goes_on o.1 ≡ 1 → o.0.done ≡ true
    quiet : c.done ≡ true → goes_on o.1 ≡ 0
    stays : c.done ≡ true → o.0.done ≡ true

  closing-IsStep :
      (c closed : Capture) (e : Effect) (d : Bool)
      → c.done ≡ d
      → closed.done ≡ true
      → goes_on (e ∷ []) ≡ 1
      → IsStep c (if d then (c, []) else (closed, e ∷ []))
  closing-IsStep c closed e true h k one = record {
    once = λ n. ground arith;
    then_done = λ n g. h;
    quiet = λ n. refl;
    stays = λ n. h;
  }
  closing-IsStep c closed e false h k one = record {
    once = λ n. rw one (ground arith);
    then_done = λ n g. k;
    quiet = λ n. cc;
    stays = λ n. k;
  }

  zero_or_one : (n : ℕ) → n ≤ 1 → (n ≡ 1 → ⊥) → n ≡ 0
  zero_or_one n h k = ground (arith, k)

  handle-IsStep : (e : Event) (c : Capture) → IsStep c (handle limit e c)
  unfolding handle
  handle-IsStep (data_event chunk) c = elim (Bool-cases (ltb limit (c.size + length chunk))) [
    | inl over ↦ rw over (record {
      once = λ h. ground arith;
      then_done = λ h g. refl;
      quiet = λ h. refl;
      stays = λ h. refl;
    })
    | inr fits ↦ rw fits (record {
      once = λ h. ground arith;
      then_done = λ h g. cc;
      quiet = λ h. refl;
      stays = λ h. h;
    })
  ]
  handle-IsStep end_event c =
      closing-IsStep c (record c { done = true; raw_body = some c.chunks }) next c.done refl refl
        refl
  handle-IsStep error_event c =
      closing-IsStep c (record c { done = true }) next_error c.done refl refl refl

  quiet_after :
      (es : List Event) (c : Capture) → c.done ≡ true → goes_on (handle_all limit es c).1 ≡ 0
  unfolding handle_all
  quiet_after [] c h = refl
  quiet_after (e ∷ es) c h =
      let step = handle-IsStep e c in
      rw (goes_on-append (handle limit e c).1 _, step.quiet h)
        (rw (quiet_after es (handle limit e c).0 (step.stays h)) (ground arith))

  -- Whatever the events of a request are, the request goes on at most once: `next` is called at
  -- most once, with or without an error.
  pub handle_all-once :
      (es : List Event) (c : Capture) → c.done ≡ false → goes_on (handle_all limit es c).1 ≤ 1
  unfolding handle_all
  handle_all-once [] c h = ground arith
  handle_all-once (e ∷ es) c h = elim (Bool-cases (handle limit e c).0.done) [
    | inl over ↦
        let out = quiet_after es (handle limit e c).0 over in
        let step = (handle-IsStep e c).once h in
        rw (goes_on-append (handle limit e c).1 _) (rw out (ground arith))
    | inr open_yet ↦
        let out = handle_all-once es (handle limit e c).0 open_yet in
        let step = silent open_yet in
        rw (goes_on-append (handle limit e c).1 _) (rw step (ground arith))
  ]
    where
      silent : (handle limit e c).0.done ≡ false → goes_on (handle limit e c).1 ≡ 0
      silent o =
          zero_or_one _ ((handle-IsStep e c).once h) (λ g. cc ((handle-IsStep e c).then_done h g))

  record IsWithin (c : Capture) : Type 0 where
    sized : length c.chunks ≤ c.size
    fits : length c.chunks ≤ limit
    body : (b : List ℕ) → c.raw_body ≡ some b → length b ≤ limit

  closing-IsWithin :
      (c closed : Capture) (e : Effect) (d : Bool)
      → IsWithin c
      → IsWithin closed
      → IsWithin (if◌then◌else◌ {A = Capture × List Effect} d (c, []) (closed, e ∷ [])).0
  closing-IsWithin c closed e true w k = w
  closing-IsWithin c closed e false w k = k

  handle-IsWithin : (e : Event) (c : Capture) → IsWithin c → IsWithin (handle limit e c).0
  unfolding handle
  handle-IsWithin (data_event chunk) c w = elim (Bool-cases (ltb limit (c.size + length chunk))) [
    | inl over ↦
        let sized = w.sized in
        rw over (record { sized = ground arith; fits = w.fits; body = w.body })
    | inr small ↦
        let sized = w.sized in
        let total = length-append c.chunks chunk in
        rw small (record { sized = ground arith; fits = ground arith; body = w.body })
  ]
  handle-IsWithin end_event c w =
      closing-IsWithin c (record c { done = true; raw_body = some c.chunks }) next c.done w
        (record { sized = w.sized; fits = w.fits; body = λ b e. subst_length (some-inj e) })
    where
      subst_length : {b : List ℕ} → c.chunks ≡ b → length b ≤ limit
      subst_length e = rw⁻¹ e w.fits
  handle-IsWithin error_event c w =
      closing-IsWithin c (record c { done = true }) next_error c.done w
        (record { sized = w.sized; fits = w.fits; body = w.body })

  all-IsWithin : (es : List Event) (c : Capture) → IsWithin c → IsWithin (handle_all limit es c).0
  unfolding handle_all
  all-IsWithin [] c w = w
  all-IsWithin (e ∷ es) c w = all-IsWithin es (handle limit e c).0 (handle-IsWithin e c w)

  -- Whatever the events are, a raw body that the request ends up with has at most `limit` bytes.
  pub raw_body-within_limit :
      (es : List Event) (b : List ℕ)
      → (handle_all limit es initial).0.raw_body ≡ some b
      → length b ≤ limit
  raw_body-within_limit es b h =
      (all-IsWithin es initial
          (record { sized = ground arith; fits = ground arith; body = λ b e. cc })).body
        b h

  takes :
      (chunk : List ℕ) (c : Capture)
      → c.size + length chunk ≤ limit
      → handle limit (data_event chunk) c
        ≡ (record c { size = c.size + length chunk; chunks = c.chunks ++ chunk }, [])
  unfolding handle
  takes chunk c h =
      let small : ltb limit (c.size + length chunk) ≡ false = ground arith in rw small refl

  ends :
      (c : Capture)
      → c.done ≡ false
      → handle limit end_event c ≡ (record c { done = true; raw_body = some c.chunks }, next ∷ [])
  unfolding handle
  ends c h = rw h refl

  -- One more event, by what it does.
  after_step :
      (e : Event) (es : List Event) (c c' : Capture)
      → handle limit e c ≡ (c', [])
      → handle_all limit (e ∷ es) c ≡ handle_all limit es c'
  unfolding handle_all
  after_step e es c c' h =
      ap (λ (o : Capture × List Effect). prefixed (handle_all limit es o.0) o.1) h
    where
      prefixed : Capture × List Effect → List Effect → Capture × List Effect
      prefixed r out = (r.0, out ++ r.1)

  collects :
      (chunks : List (List ℕ)) (c : Capture)
      → c.done ≡ false
      → c.size + length (all_bytes chunks) ≤ limit
      → ((handle_all limit (data_events chunks ++ end_event ∷ []) c).0.raw_body
          ≡ some (c.chunks ++ all_bytes chunks))
        × ((handle_all limit (data_events chunks ++ end_event ∷ []) c).1 ≡ next ∷ [])
  unfolding handle_all
  collects [] c h fits = rw (ends c h) (ap some (sym (append-nil c.chunks)), refl)
  collects (chunk ∷ rest) c h fits =
      let total = length-append chunk (all_bytes rest) in
      let step = takes chunk c (ground arith) in
      let (body, out) =
        collects rest (record c { size = c.size + length chunk; chunks = c.chunks ++ chunk }) h
          (ground arith) in
      let same = after_step (data_event chunk) (data_events rest ++ end_event ∷ []) c _ step in
      (
        ap (λ (o : Capture × List Effect). o.0.raw_body) same
            ∙ body
            ∙ ap some (append_assoc c.chunks chunk (all_bytes rest)),
        ap (λ (o : Capture × List Effect). o.1) same ∙ out,
      )

  -- A request within the limit goes on once, without an error, and its raw body is its bytes, in
  -- their order and however they were cut into chunks.
  pub handle_all-collects :
      (chunks : List (List ℕ))
      → length (all_bytes chunks) ≤ limit
      → ((handle_all limit (data_events chunks ++ end_event ∷ []) initial).0.raw_body
          ≡ some (all_bytes chunks))
        × ((handle_all limit (data_events chunks ++ end_event ∷ []) initial).1 ≡ next ∷ [])
  handle_all-collects chunks h = collects chunks initial refl (ground arith)
