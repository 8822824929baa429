-- ===== src/Guards/Scope.antt =====
-- The guards of a scope, in their variables, and what a program does with them until the scope is left
-- (the members and destructors of page_guard.cpp).
use gavin_db.Prelude.{
  ℕ, List, [], ◌∷◌, get_elem?, set, none, some, Result, ok, err, undefined_behaviour, ◌>>=◌,
}
use gavin_db.Guards.Guard.{
  Guard, GuardClass, basic_page_guard, read_page_guard, write_page_guard, Pages, drop, fetch,
  upgrade, read_upgrade_write, get_data_mut, assign, emptied,
}

-- What is done with the guards, each named by its variable. The class of a guard that a variable is given, which C++
-- checks, is not looked at. A guard that is moved into its own variable stays as it is.
pub data Step : Type 0 where
  fetch_into : ℕ → GuardClass → ℕ → Step
  drop_guard get_mut : ℕ → Step
  move_into : ℕ → ℕ → Step
  upgrade_into : ℕ → GuardClass → ℕ → Step

abbrev pub Scope : Type 0
Scope = List Guard × Pages

abbrev pub guard_at : List Guard → ℕ → Result Guard
guard_at vars i = elim (get_elem? vars i) [ none ↦ err undefined_behaviour | some g ↦ ok g ]

-- The upgrade that the guard's class has.
unfoldable pub upgrade_of : GuardClass → Guard → Pages → Result (Guard × Guard × Pages)
unfolding upgrade read_upgrade_write
upgrade_of class g s = elim (g.class) [
  | basic_page_guard ↦ elim class [
    | basic_page_guard ↦ err undefined_behaviour
    | read_page_guard ↦ upgrade read_page_guard g s
    | write_page_guard ↦ upgrade write_page_guard g s
  ]
  | read_page_guard ↦ elim class [
    | write_page_guard ↦ read_upgrade_write g s
    | _ ↦ err undefined_behaviour
  ]
  | write_page_guard ↦ err undefined_behaviour
]

-- Assignment of a guard that is given to a variable.
unfoldable pub store : ℕ → Guard → Scope → Result Scope
unfolding assign
store i g (vars, s) =
    guard_at vars i >>= λ this. let (new, _, after) = assign this g s in ok (set vars i new, after)

unfoldable pub step : Step → Scope → Result Scope
unfolding fetch drop get_data_mut upgrade_of store
step (fetch_into i class p) (vars, s) = let (g, after) = fetch class p s in store i g (vars, after)
step (drop_guard i) (vars, s) = guard_at vars i >>= λ g. ok (set vars i (emptied g), drop g s)
step (get_mut i) (vars, s) =
    guard_at vars i >>= λ g. get_data_mut g >>= λ marked. ok (set vars i marked, s)
step (move_into i j) (vars, s) =
    guard_at vars j >>= λ that. store i that (set vars j (emptied that), s)
step (upgrade_into i class j) (vars, s) = guard_at vars j >>= λ g.
    upgrade_of class g s >>= λ (new, old, after). store i new (set vars j old, after)

unfoldable pub run : List Step → Scope → Result Scope
unfolding step
run [] scope = ok scope
run (a ∷ steps) scope = step a scope >>= run steps

-- The destructors at the end of the scope.
unfoldable pub leave : List Guard → Pages → Pages
unfolding drop
leave [] s = s
leave (g ∷ vars) s = leave vars (drop g s)
