-- ===== src/Startup.antt =====
-- The first lines of the three applications' main functions: the cores that they pin themselves to,
-- and the visualiser's wait for the telemetry file. The cores, the pinning and the file system are
-- outside: the list of cores is an argument, none where it cannot be read, and the cores that a
-- program pins itself to are its result, in order.
use hft_demo.Prelude.{
  List, ℕ, Option, Returns, Outcome, Bool, some, ◌≡◌, if◌then◌else◌, get_elem?-cases, ◌>>=◌, false,
  ltb, ok, suc, panic, inl, ◌++◌, [], length, true, ◌↔◌, ◌∷◌, ◌≤◌, arith, ◌+◌, inr, zero,
  get_elem?-lt, ◌>>◌, assert, ◌<◌, Bool-cases, Outcome-cases, refl,
}
use hft_demo.Prelude.Bytes.{or_panic, index, index-there, index-eq}

-- `if core_ids.len() > n { set_for_current(core_ids[n]) }`.
abbrev pin_if_there : ℕ → List ℕ → Outcome (List ℕ)
pin_if_there n core_ids =
    if ltb n (length core_ids) then (do core ← index core_ids n; ok (core ∷ [])) else ok []

-- The replay goes on without a core; the live engine and the visualiser index the list again.
start_replay : Option (List ℕ) → Outcome (List ℕ)
start_replay cores = do core_ids ← or_panic cores; pin_if_there 2 core_ids

pin_twice : ℕ → Option (List ℕ) → Outcome (List ℕ)
pin_twice n cores = do
  core_ids ← or_panic cores
  pinned ← pin_if_there n core_ids
  producer_core ← index core_ids n
  ok (pinned ++ (producer_core ∷ []))

start_live : Option (List ℕ) → Outcome (List ℕ)
unfolding pin_twice
start_live cores = pin_twice 2 cores

-- The looks at the file, a second apart, from the `i`-th on.
file_exists : (ℕ → Bool) → (looks i : ℕ) → Bool
file_exists there zero i = false
file_exists there (suc looks) i = if there i then true else file_exists there looks (i + 1)

start_visualiser : Option (List ℕ) → (ℕ → Bool) → Outcome (List ℕ)
unfolding pin_twice file_exists
start_visualiser cores there = do
  pinned ← pin_twice 1 cores
  assert (file_exists there 49 1)
  ok pinned

pin_if_there-Returns : (n : ℕ) (core_ids : List ℕ) → Returns (pin_if_there n core_ids)
pin_if_there-Returns n core_ids = elim (get_elem?-cases core_ids n) [
  | inl past ↦ ([], ground (arith, past))
  | inr (core, at) ↦
      (core ∷ [], ground (arith, index-there core_ids n core at, get_elem?-lt core_ids n core at))
]

-- The replay starts on any number of cores.
start_replay-Returns : (core_ids : List ℕ) → Returns (start_replay (some core_ids))
unfolding start_replay
start_replay-Returns core_ids = pin_if_there-Returns 2 core_ids

-- The live engine panics exactly where there are at most two cores, although it says that it
-- continues, and the visualiser does where there is at most one.
pin_twice-panic_iff :
    (n : ℕ) (core_ids : List ℕ) → (pin_twice n (some core_ids) ≡ panic) ↔ (length core_ids ≤ n)
unfolding pin_twice
pin_twice-panic_iff n core_ids = ground (arith, index-eq core_ids n)

-- The wait finds a file exactly where it is there at one of the looks.
file_exists_iff :
    (there : ℕ → Bool) (looks i : ℕ)
    → (file_exists there looks i ≡ true) ↔ ((j : ℕ) × (i ≤ j) × (j < i + looks) × (there j ≡ true))
unfolding file_exists
file_exists_iff there zero i =
    (λ e. absurd (ground (arith, e)), λ (j, low, high, e). absurd (omega (arith, low, high)))
file_exists_iff there (suc looks) i =
    let rest = file_exists_iff there looks (i + 1) in
    elim (Bool-cases (there i)) [
      | inl here ↦ (λ e. (i, omega arith, omega arith, here), λ h. rw here refl)
      | inr absent ↦ (
        λ e.
            let (j, low, high, at) = rest.0 (ground (arith, e, absent)) in
            (j, omega (arith, low), omega (arith, high), at),
        λ (j, low, high, at).
            let later : i + 1 ≤ j = ground (arith, low, absent, at) in
            rw absent (rest.1 (j, later, omega (arith, high), at)),
      )
    ]

-- The visualiser starts exactly where there are two cores and the file is there at one of its 49
-- looks.
start_visualiser-ok_iff :
    (core_ids : List ℕ) (there : ℕ → Bool)
    → ((pinned : List ℕ) × (start_visualiser (some core_ids) there ≡ ok pinned))
      ↔ ((1 < length core_ids) × ((j : ℕ) × (1 ≤ j) × (j < 1 + 49) × (there j ≡ true)))
unfolding start_visualiser
start_visualiser-ok_iff core_ids there =
    let found = file_exists_iff there 49 1 in
    let pins = pin_twice-panic_iff 1 core_ids in
    elim (Outcome-cases (pin_twice 1 (some core_ids))) [
      | inl stops ↦ (
        λ (pinned, e). absurd (ground (arith, e, stops)),
        λ (enough, h). absurd (omega (arith, enough, pins.0 stops)),
      )
      | inr (pinned, fine) ↦ (
        λ (pinned', e). (ground (arith, pins, fine), found.0 (ground (arith, e, fine))),
        λ (enough, h). (pinned, rw (fine, found.1 h) refl),
      )
    ]
