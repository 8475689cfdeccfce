-- ===== src/World/Monad.antt =====
-- Calls that return a value or an error and change the world.
use brainapi_go_sdk.Prelude.{refl, ◌≡◌, ◌∷◌}
use brainapi_go_sdk.Errors.{Error}
use brainapi_go_sdk.World.{State, Event, World}

-- `diverged` is a loop of the model that ran out of fuel.
pub data Outcome (A : Type 0) : Type 0 where
  ok : A → Outcome A
  err : Error → Outcome A
  diverged : Outcome A

abbrev pub M : Type 0 → Type 0
M A = World → Outcome A × World

abbrev pub continue : {A B : Type 0} → Outcome A × World → (A → M B) → Outcome B × World
continue (ok a, w) f = f a w
continue (err e, w) f = (err e, w)
continue (diverged, w) f = (diverged, w)

infixl 5 ◌>>=◌ ◌>>◌
abbrev pub ◌>>=◌ : {A B : Type 0} → M A → (A → M B) → M B
◌>>=◌ m f w = continue (m w) f

abbrev pub ◌>>◌ : {B : Type 0} → M (Unit {0}) → M B → M B
◌>>◌ m k w = continue (m w) (λ _. k)

abbrev pub return : {A : Type 0} → A → M A
return a w = (ok a, w)

abbrev pub fail : {A : Type 0} → Error → M A
fail e w = (err e, w)

-- `if err != nil { return nil, f(err) }`
abbrev pub map_error : {A : Type 0} → (Error → Error) → Outcome A × World → Outcome A × World
map_error f (ok a, w) = (ok a, w)
map_error f (err e, w) = (err (f e), w)
map_error f (diverged, w) = (diverged, w)

abbrev pub modify : (State → State) → M (Unit {0})
modify f w = (ok tt, record w { state = f w.state })

abbrev pub note : Event → World → World
note e w = record w { trace = e ∷ w.trace }

abbrev pub with_state : World → State → World
with_state w s = record w { state = s }

-- An outcome other than running out of fuel.
abbrev pub Halts : {A : Type 0} → Outcome A × World → Type 0
Halts (ok a, w) = Unit {0}
Halts (err e, w) = Unit {0}
Halts (diverged, w) = ⊥

pub Halts-continue :
    {A B : Type 0} (m : Outcome A × World) (f : A → M B)
    → Halts m
    → ((a : A) (w : World) → Halts (f a w))
    → Halts (continue m f)
Halts-continue (ok a, w) f h k = k a w
Halts-continue (err e, w) f h k = tt
Halts-continue (diverged, w) f h k = h

-- What the world keeps through both parts of a bind.
pub continue-keeps :
    {A B : Type 0} (Q : World → Type 0) (m : Outcome A × World) (f : A → M B)
    → Q m.1
    → ((a : A) (w : World) → Q w → Q (f a w).1)
    → Q (continue m f).1
continue-keeps Q (ok a, w) f h k = k a w h
continue-keeps Q (err e, w) f h k = h
continue-keeps Q (diverged, w) f h k = h

-- A property of results that only a value can break.
pub continue_rule :
    {A B : Type 0} (R : Outcome B × World → Type 0) (m : Outcome A × World) (f : A → M B)
    → ((e : Error) (w : World) → R (err e, w))
    → ((w : World) → R (diverged, w))
    → ((a : A) (w : World) → m ≡ (ok a, w) → R (f a w))
    → R (continue m f)
continue_rule R (ok a, w) f e d k = k a w refl
continue_rule R (err x, w) f e d k = e x w
continue_rule R (diverged, w) f e d k = d w
