-- ===== src/Stages.antt =====
-- The shape of the functions that read a state from a target, stage by stage, as GetState of
-- internal/remoteflight/vault and of internal/remoteflight/consul do: `S` is the state that is put
-- together, `W` the state of the target.
pub mod Rules
use terraform_provider_enos.Prelude.{Option, none, some}
use terraform_provider_enos.Go.{Err, Ran, returned, panicked}

-- What a reader of the target gives back: a value, an error and the target after it.
abbrev pub Read : Type 0 → Type 0 → Type 0
Read W A = W → A × Option Err × W

-- How far such a function is: it goes on with a state, or returns it with an error or nil, or panics.
pub data Progress (S W : Type 0) : Type 0 where
  proceed : S → W → Progress S W
  finish : S → Option Err → W → Progress S W
  crash : Progress S W

-- A pointer to a state, and an error.
abbrev pub Result : Type 0 → Type 0 → Type 0
Result S W = Ran (Option S × Option Err × W)

abbrev pub as_is : Err → Err
as_is e = e

module _ {S W : Type 0} where
  infixl 5 ◌then◌
  abbrev pub ◌then◌ : Progress S W → (S → W → Progress S W) → Progress S W
  proceed s w then k = k s w
  finish s e w then k = finish s e w
  crash then k = crash

  -- `state.X, err = reader(...)`, and a return of the state and the error that `err` makes of it.
  abbrev pub fetch : {A : Type 0} → A × Option Err × W → (A → S) → (Err → Err) → Progress S W
  fetch (a, none, w) put err = proceed (put a) w
  fetch (a, some e, w) put err = finish (put a) (some (err e)) w

  -- `v, err := ...; if err != nil { return state, err }`, which leaves the state as it is.
  abbrev pub value : {A : Type 0} → S → W → A × Option Err → (A → Progress S W) → Progress S W
  value s w (a, some e) k = finish s (some e) w
  value s w (a, none) k = k a

  -- The same on a reader, whose error is wrapped.
  abbrev pub value_of :
      {A : Type 0} → S → A × Option Err × W → (Err → Err) → (A → W → Progress S W) → Progress S W
  value_of s (a, some e, w) err k = finish s (some (err e)) w
  value_of s (a, none, w) err k = k a w

  abbrev pub result_of : Progress S W → Result S W
  result_of (proceed s w) = returned (some s, none, w)
  result_of (finish s e w) = returned (some s, e, w)
  result_of crash = panicked
