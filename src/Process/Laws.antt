-- ===== src/Process/Laws.antt =====
-- src/margo-init.c: Argobots runs as long as there are instances; and how an initialization that fails
-- stops it under one that runs.
use mochi_margo.Base.{
  ℕ, ◌+◌, ◌-◌, ◌%◌, ◌^◌, ◌<◌, ◌≤◌, ◌≡◌, refl, subst, Bool, true, false, Bool-cases, ◌==◌, ◌&&◌, inl,
  inr, arith, List, [], ◌∷◌,
}
use mochi_margo.Process.Defs.{
  Process, abt_down, abt_up, Stage, not_json, before_argobots, in_arrays, after_argobots, complete,
  init_ext, cleaned_up,
}

-- Instances come and go. `live` is how many there are that have no parent; an initialization that fails
-- has a text that is not JSON, or gets behind the set-up of Argobots; one with a parent ends anywhere.
pub data Step (p : Process) (live : ℕ) : Process → ℕ → Type 0 where
  started :
      (tool : Bool) → live + 1 < 2 ^ 32 → Step p live (init_ext false tool complete p).1 (live + 1)
  refused : (tool : Bool) → Step p live (init_ext false tool not_json p).1 live
  failed :
      (tool : Bool) → live + 1 < 2 ^ 32 → Step p live (init_ext false tool after_argobots p).1 live
  stopped : 1 ≤ live → Step p live (cleaned_up false p) (live - 1)
  child_started : (tool : Bool) (stage : Stage) → Step p live (init_ext true tool stage p).1 live
  child_stopped : Step p live (cleaned_up true p) live

pub data Reach (p : Process) : Process → ℕ → Type 0 where
  here : Reach p p 0
  next : {q r : Process} {m n : ℕ} → Reach p q m → Step q m r n → Reach p r n

pub record Inv (p : Process) (live : ℕ) : Type 0 where
  pub counted : p.num_instances ≡ live
  pub small : live < 2 ^ 32
  pub runs : 1 ≤ live → p.running ≡ true
  pub own : p.abt_init ≡ true → 1 ≤ live

up-Inv :
    (tool : Bool) (p : Process) (live : ℕ)
    → live + 1 < 2 ^ 32
    → Inv p live
    → Inv (abt_up tool p) (live + 1)
unfolding abt_up
up-Inv tool p live room v = record {
  counted = omega (arith, v.counted, room);
  small = room;
  runs = λ h. refl;
  own = λ h. omega arith;
}

down-Inv : (p : Process) (live : ℕ) → 1 ≤ live → Inv p live → Inv (abt_down p) (live - 1)
unfolding abt_down
down-Inv p live some_live v =
    let rest : (p.num_instances + (2 ^ 32 - 1)) % 2 ^ 32 ≡ live - 1 =
      omega (arith, v.counted, v.small, some_live) in
    elim (Bool-cases ((p.num_instances + (2 ^ 32 - 1)) % 2 ^ 32 == 0)) [
      | inl z ↦ elim (Bool-cases p.abt_init) [
        | inl y ↦
            let last : live - 1 ≡ 0 = ground (arith, rest, z) in
            rw (z, y)
              (record {
                counted = rest;
                small = omega (arith, v.small);
                runs = λ h. absurd (omega (arith, h, last));
                own = λ h. absurd (ground (arith, h));
              })
        | inr n ↦
            rw (z, n)
              (record {
                counted = rest;
                small = omega (arith, v.small);
                runs = λ h. v.runs some_live;
                own = λ h. absurd (ground (arith, h, n));
              })
      ]
      | inr n ↦ rw n (record {
        counted = rest;
        small = omega (arith, v.small);
        runs = λ h. v.runs some_live;
        own = λ h. ground (arith, rest, n);
      })
    ]

Reach-Inv : (p q : Process) (live : ℕ) → Inv p 0 → Reach p q live → Inv q live
unfolding init_ext cleaned_up
Reach-Inv p q live v here = v
Reach-Inv p q live v (next {q = r} {m = m} before (started tool room)) =
    up-Inv tool r m room (Reach-Inv p r m v before)
Reach-Inv p q live v (next {q = r} {m = m} before (failed tool room)) =
    let both =
      down-Inv (abt_up tool r) (m + 1) (omega arith)
        (up-Inv tool r m room (Reach-Inv p r m v before)) in
    subst (Inv (abt_down (abt_up tool r))) (omega arith) both
Reach-Inv p q live v (next {q = r} {m = m} before (stopped some_live)) =
    down-Inv r m some_live (Reach-Inv p r m v before)
Reach-Inv p q live v (next {q = r} {m = m} before (refused tool)) = Reach-Inv p r m v before
Reach-Inv p q live v (next {q = r} {m = m} before (child_started tool stage)) =
    Reach-Inv p r m v before
Reach-Inv p q live v (next {q = r} {m = m} before child_stopped) = Reach-Inv p r m v before

-- From a process without instances, in which margo has not set Argobots up, after any sequence of
-- instances that come and go, of initializations without a parent that fail on a text that is not JSON
-- or behind the set-up of Argobots, and of initializations with a parent: the counter is the number of
-- instances that have no parent, Argobots runs as long as there is one of these, and margo has Argobots
-- to stop only while there is one. There are always fewer than 2 ^ 32.
pub argobots_outlives_instances :
    (p q : Process) (live : ℕ)
    → p.num_instances ≡ 0
    → p.abt_init ≡ false
    → Reach p q live
    → (q.num_instances ≡ live) × (1 ≤ live → q.running ≡ true) × (q.abt_init ≡ true → 1 ≤ live)
argobots_outlives_instances p q live none_yet fresh r =
    let start : Inv p 0 = record {
      counted = none_yet;
      small = omega arith;
      runs = λ h. absurd (omega (arith, h));
      own = λ h. absurd (ground (arith, h, fresh));
    } in
    let v = Reach-Inv p q live start r in (v.counted, v.runs, v.own)

-- The initializations that count down what they did not count, where Argobots runs.
abbrev pub too_early : Stage → Bool
too_early before_argobots = true
too_early in_arrays = true
too_early _ = false

abbrev pub all_too_early : List Stage → Bool
all_too_early [] = true
all_too_early (stage ∷ stages) = too_early stage && all_too_early stages

-- Initializations without a parent, one after the other.
unfoldable pub init_all : (tool_enabled : Bool) → List Stage → Process → Process
unfolding init_ext
init_all tool [] p = p
init_all tool (stage ∷ stages) p = init_all tool stages (init_ext false tool stage p).1

-- Argobots, set up by margo, runs under so many instances.
record Runs (n : ℕ) (p : Process) : Type 0 where
  number : p.num_instances ≡ n
  own : p.abt_init ≡ true
  runs : p.running ≡ true
