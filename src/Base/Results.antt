-- ===== src/Base/Results.antt =====
-- A property of every result that there is, for invariants.
use mathlib.Core.Bool.{Bool, true, false}
use mathlib.Core.Option.{Option, none, some}
use bigblackhardware.Base.Tests.{if◌then◌else◌, ◌>>=◌}

pub data Holds {A : Type 0} (P : A → Type 0) : Option A → Type 0 where
  nothing : Holds P none
  just : {a : A} → P a → Holds P (some a)

pub Holds-bind :
    {A B : Type 0} {P : A → Type 0} {R : B → Type 0} {o : Option A} (f : A → Option B)
    → Holds P o
    → ((a : A) → P a → Holds R (f a))
    → Holds R (o >>= f)
Holds-bind f nothing k = nothing
Holds-bind f (just {a} p) k = k a p

-- Whatever the first part gives.
pub Holds-any :
    {A B : Type 0} {R : B → Type 0} (o : Option A) (f : A → Option B)
    → ((a : A) → Holds R (f a))
    → Holds R (o >>= f)
Holds-any none f k = nothing
Holds-any (some a) f k = k a

pub Holds-if :
    {A : Type 0} {P : A → Type 0} (b : Bool) {x y : Option A}
    → Holds P x
    → Holds P y
    → Holds P (if b then x else y)
Holds-if true h k = h
Holds-if false h k = k

pub Holds-some : {A : Type 0} {P : A → Type 0} {a : A} → Holds P (some a) → P a
Holds-some (just p) = p
