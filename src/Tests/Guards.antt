-- ===== src/Tests/Guards.antt =====
-- Two guards in a scope: one is upgraded, moved, and dropped with the scope.
use gavin_db.Prelude.{ℕ, ◌+◌, ◌≡◌, refl, arith, true, false, List, [], ◌∷◌, none, ok}
use gavin_db.Guards.Guard.{
  Hold, pinned, reading, writing, basic_page_guard, read_page_guard, write_page_guard, Guard, Pages,
}
use gavin_db.Guards.Scope.{Step, fetch_into, get_mut, move_into, upgrade_into, run, leave}
use gavin_db.Guards.Held.{total}
use gavin_db.Guards.Balance.{IsBalanced, run-leave}

abbrev no_pages : Pages
no_pages = record { held = λ h p. 0; dirty = λ p. false }

abbrev empty_guard : Guard
empty_guard = record { class = basic_page_guard; page = none; is_dirty = false }

abbrev empty_guards : List Guard
empty_guards = empty_guard ∷ empty_guard ∷ []

-- Page 7 is read, then written; page 8 is fetched over it, after it is moved away.
abbrev steps : List Step
steps =
    fetch_into 0 read_page_guard 7
    ∷ upgrade_into 0 write_page_guard 0
    ∷ get_mut 0
    ∷ move_into 1 0
    ∷ fetch_into 0 basic_page_guard 8
    ∷ []

abbrev scope_after : List Guard × Pages
unfolding run
scope_after = elim (run steps (empty_guards, no_pages)) [
  | ok scope ↦ scope
  | _ ↦ (empty_guards, no_pages)
]

scope_runs : run steps (empty_guards, no_pages) ≡ ok scope_after
unfolding run
scope_runs = refl

page_7_held :
    scope_after.1.held pinned 7 + scope_after.1.held reading 7 + scope_after.1.held writing 7 ≡ 2
unfolding run
page_7_held = refl

page_7_written : (leave scope_after.0 scope_after.1).dirty 7 ≡ true
unfolding run leave
page_7_written = refl

empty-IsBalanced : IsBalanced (empty_guards, no_pages)
unfolding IsBalanced total
empty-IsBalanced = λ h p. refl

run-leave_example :
    IsBalanced scope_after × ((h : Hold) (p : ℕ) → (leave scope_after.0 scope_after.1).held h p ≡ 0)
run-leave_example =
    run-leave steps (empty_guards, no_pages) scope_after.0 scope_after.1 (omega arith)
      empty-IsBalanced scope_runs
