-- ===== src/Scenarios/Stages.antt =====
-- src/scenarios.rs: where a loop stands, and what relates its state to the one it started from.
use tak_bench.Prelude.{◌≡◌, refl, Bool, true, false, if◌then◌else◌, Result, ok, err}
use tak_bench.Scenarios.Errors.{AnyError}
use tak_bench.Scenarios.Batch.{Stage, going, ended, stopped, ◌and_then◌}

abbrev pub state_of : {S : Type 0} → Stage S → S
state_of (going s) = s
state_of (ended s) = s
state_of (stopped e s) = s

abbrev pub map_stage : {A B : Type 0} → (A → B) → Stage A → Stage B
map_stage f (going a) = going (f a)
map_stage f (ended a) = ended (f a)
map_stage f (stopped e a) = stopped e (f a)

-- The loop has returned.
unfoldable pub IsOver : {S : Type 0} → Stage S → Type 0
IsOver (going s) = ⊥
IsOver (ended s) = Unit
IsOver (stopped e s) = Unit

-- What a loop that has returned returns
pub result_of : {S : Type 0} (stage : Stage S) → IsOver stage → Result AnyError Unit
unfolding IsOver
result_of (going s) over = absurd over
result_of (ended s) over = ok tt
result_of (stopped e s) over = err e

pub state_of-choice :
    {S : Type 0} (P : S → Type 0) (test : Bool) (x y : Stage S)
    → P (state_of x)
    → P (state_of y)
    → P (state_of (if test then x else y))
state_of-choice P true x y hx hy = hx
state_of-choice P false x y hx hy = hy

-- The same, where each side may use the test's value
pub state_of-branch :
    {S : Type 0} (P : S → Type 0) (test : Bool) (x y : Stage S)
    → (test ≡ true → P (state_of x))
    → (test ≡ false → P (state_of y))
    → P (state_of (if test then x else y))
state_of-branch P true x y hx hy = hx refl
state_of-branch P false x y hx hy = hy refl

pub state_of-map_stage :
    {A B : Type 0} (P : B → Type 0) (f : A → B) (stage : Stage A)
    → P (f (state_of stage))
    → P (state_of (map_stage f stage))
state_of-map_stage P f (going s) p = p
state_of-map_stage P f (ended s) p = p
state_of-map_stage P f (stopped e s) p = p

-- A relation that holds along the first step and the rest holds along both.
pub state_of-and_then :
    {S : Type 0} (R : S → S → Type 0)
    → ((s s' s'' : S) → R s s' → R s' s'' → R s s'')
    → (s : S) (stage : Stage S) (k : S → Stage S) → R s (state_of stage)
    → ((s' : S) → R s' (state_of (k s')))
    → R s (state_of (stage and_then k))
state_of-and_then R trans s (going s') k first rest = trans s s' (state_of (k s')) first (rest s')
state_of-and_then R trans s (ended s') k first rest = first
state_of-and_then R trans s (stopped e s') k first rest = first

pub and_then-IsOver :
    {S : Type 0} (stage : Stage S) (k : S → Stage S)
    → ((s : S) → IsOver (k s))
    → IsOver (stage and_then k)
unfolding IsOver
and_then-IsOver (going s) k over = over s
and_then-IsOver (ended s) k over = tt
and_then-IsOver (stopped e s) k over = tt

pub map_stage-IsOver :
    {A B : Type 0} (f : A → B) (stage : Stage A) → IsOver stage → IsOver (map_stage f stage)
unfolding IsOver
map_stage-IsOver f (going s) over = absurd over
map_stage-IsOver f (ended s) over = tt
map_stage-IsOver f (stopped e s) over = tt

pub choice-IsOver :
    {S : Type 0} (test : Bool) (x y : Stage S)
    → IsOver x
    → IsOver y
    → IsOver (if test then x else y)
choice-IsOver true x y hx hy = hx
choice-IsOver false x y hx hy = hy
