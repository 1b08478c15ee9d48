-- ===== src/Guard/Body.antt =====
-- `captureRawBody` of packages/middleware/src/index.js: the events of a request, and the answers.
-- A chunk is the list of its bytes.
use Prim.Native.Nat.{ℕ, ◌+◌}
use capability_demo.Prelude.{
  Bool, true, false, ltb, length, List, [], ◌∷◌, ◌++◌, Option, none, some, if◌then◌else◌,
}

pub data Event : Type 0 where
  data_event : List ℕ → Event
  end_event : Event
  error_event : Event

-- What the middleware does to the outside: `next()`, `next(err)`, or status 413.
pub data Effect : Type 0 where
  next : Effect
  next_error : Effect
  too_large : Effect

pub record Capture : Type 0 where
  pub chunks : List ℕ
  pub size : ℕ
  pub done : Bool
  pub raw_body : Option (List ℕ)

abbrev pub initial : Capture
initial = record { chunks = []; size = 0; done = false; raw_body = none }

-- 1_048_576 where the options give no limit
abbrev pub limit_of : Option ℕ → ℕ
limit_of none = 1048576
limit_of (some n) = n

-- `finish`, without and with an error
abbrev pub finish : Capture → Capture × List Effect
finish c =
    if c.done then (c, []) else (record c { done = true; raw_body = some c.chunks }, next ∷ [])

abbrev pub finish_error : Capture → Capture × List Effect
finish_error c = if c.done then (c, []) else (record c { done = true }, next_error ∷ [])

module _ (limit : ℕ) where
  unfoldable pub handle : Event → Capture → Capture × List Effect
  handle (data_event chunk) c =
      let size = c.size + length chunk in
      if ltb limit size
      then (record c { size = size; done = true }, too_large ∷ [])
      else (record c { size = size; chunks = c.chunks ++ chunk }, [])
  handle end_event c = finish c
  handle error_event c = finish_error c

  -- A sequence of events, and the effects in their order.
  unfoldable pub handle_all : List Event → Capture → Capture × List Effect
  unfolding handle
  handle_all [] c = (c, [])
  handle_all (e ∷ es) c =
      let (c₁, out) = handle e c in let (c₂, rest) = handle_all es c₁ in (c₂, out ++ rest)
