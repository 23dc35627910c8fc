-- ===== src/Stages/Rules.antt =====
-- Rules for stages: what holds of where they go on or return.
use terraform_provider_enos.Prelude.{
  ◌≡◌, refl, Bool, true, false, Option, none, some, if◌then◌else◌,
}
use terraform_provider_enos.Go.{Err}
use terraform_provider_enos.Stages.{Progress, proceed, finish, ◌then◌, fetch, value, value_of}

module _ {S W : Type 0} where
  -- `Q` of a state to go on with, `P` of one that is returned; a panic has neither.
  pub data Holds (P : S → Option Err → Type 0) (Q : S → Type 0) : Progress S W → Type 0 where
    goes_on : {s : S} {w : W} → Q s → Holds P Q (proceed s w)
    is_back : {s : S} {e : Option Err} {w : W} → P s e → Holds P Q (finish s e w)

  module _ {P : S → Option Err → Type 0} where
    pub then-Holds :
        {Q R : S → Type 0} {p : Progress S W} {k : S → W → Progress S W}
        → Holds P Q p
        → ((s : S) (w : W) → Q s → Holds P R (k s w))
        → Holds P R (p then k)
    then-Holds (goes_on h) f = f _ _ h
    then-Holds (is_back h) f = is_back h

    module _ {Q : S → Type 0} {A : Type 0} where
      pub fetch-Holds :
          (r : A × Option Err × W) (put : A → S) (err : Err → Err)
          → ((a : A) → Q (put a))
          → ((a : A) (e : Err) → P (put a) (some e))
          → Holds P Q (fetch r put err)
      fetch-Holds (a, none, w) put err q p = goes_on (q a)
      fetch-Holds (a, some e, w) put err q p = is_back (p a (err e))

      pub value-Holds :
          (s : S) (w : W) (r : A × Option Err) (k : A → Progress S W)
          → ((e : Err) → P s (some e))
          → ((a : A) → r ≡ (a, none) → Holds P Q (k a))
          → Holds P Q (value s w r k)
      value-Holds s w (a, some e) k p q = is_back (p e)
      value-Holds s w (a, none) k p q = q a refl

      pub value_of-Holds :
          (s : S) (r : A × Option Err × W) (err : Err → Err) (k : A → W → Progress S W)
          → ((e : Err) → P s (some e))
          → ((a : A) (w : W) → Holds P Q (k a w))
          → Holds P Q (value_of s r err k)
      value_of-Holds s (a, some e, w) err k p q = is_back (p (err e))
      value_of-Holds s (a, none, w) err k p q = q a w

      -- The same with what the reader gave.
      pub read-Holds :
          (s : S) (r : A × Option Err × W) (err : Err → Err) (k : A → W → Progress S W)
          → ((e : Err) → P s (some e))
          → ((a : A) (w : W) → r ≡ (a, none, w) → Holds P Q (k a w))
          → Holds P Q (value_of s r err k)
      read-Holds s (a, some e, w) err k p q = is_back (p (err e))
      read-Holds s (a, none, w) err k p q = q a w refl

    pub if-Holds :
        {Q : S → Type 0} (b : Bool) (p q : Progress S W)
        → Holds P Q p
        → Holds P Q q
        → Holds P Q (if b then p else q)
    if-Holds true p q h k = h
    if-Holds false p q h k = k
