-- ===== src/Guards/Balance.antt =====
-- Every pin and every latch that is held belongs to one guard (Scope).
use gavin_db.Prelude.{
  length, length-set, refl, ◌^◌, ◌<◌, ℕ, ◌+◌, ◌-◌, ◌≡◌, ◌∙◌, List, [], ◌∷◌, set, ok, ◌>>=◌,
  >>=-returned, ok-injective, arith,
}
use mathlib.Core.Path.{subst}
use gavin_db.Guards.Guard.{
  Hold, Guard, Pages, drop, fetch, get_data_mut, assign, emptied, new_guard,
}
use gavin_db.Guards.Scope.{
  Step, fetch_into, drop_guard, get_mut, move_into, upgrade_into, Scope, guard_at, upgrade_of,
  store, step, run, leave,
}
use gavin_db.Guards.Held.{
  weight, total, held-drop, held-fetch, total-set, guard_at-found, Upgraded, upgrade_of-Upgraded,
  weight-total, marked-weight, total-le,
}

-- The pages are held as often as the guards hold them.
unfoldable pub IsBalanced : Scope → Type 0
unfolding total
IsBalanced (vars, s) = (h : Hold) (p : ℕ) → s.held h p ≡ total h vars p

-- The pages are held by the guards and by one more.
abbrev InFlight : List Guard → Guard → Pages → Type 0
InFlight vars g s = (h : Hold) (p : ℕ) → s.held h p ≡ total h vars p + weight h g p

-- The guards are in balance, and their variables are as many as before.
abbrev Sound : ℕ → Scope → Type 0
Sound n scope = IsBalanced scope × (length scope.0 ≡ n)

store-Sound :
    (n i : ℕ) (g : Guard) (vars : List Guard) (s : Pages) (after : Scope)
    → InFlight vars g s
    → length vars ≡ n
    → store i g (vars, s) ≡ ok after
    → Sound n after
unfolding store assign IsBalanced
store-Sound n i g vars s after flight size e =
    let (this, at_i, made) =
      >>=-returned (guard_at vars i) (λ x. ok (set vars i g, drop x s)) after e in
    subst (Sound n) (ok-injective made) (
      (λ h p. omega (
        arith,
        flight h p,
        held-drop this.class this.page this.is_dirty s h p,
        total-set h vars i this g p (guard_at-found vars i this at_i),
      )),
      length-set vars i g ∙ size,
    )

-- Every step leaves the guards and what is held in balance.
step-Sound :
    (n : ℕ) (a : Step) (vars : List Guard) (s : Pages) (after : Scope)
    → n + 1 < 2 ^ 16
    → Sound n (vars, s)
    → step a (vars, s) ≡ ok after
    → Sound n after
unfolding step IsBalanced Upgraded fetch
step-Sound n (fetch_into i class q) vars s after few (balance, size) e =
    store-Sound n i (new_guard class q) vars (fetch class q s).1 after
      (λ h p. omega (
        arith,
        balance h p,
        held-fetch class q s h p (omega (arith, balance h p, total-le h vars p, size)),
      ))
      size e
step-Sound n (drop_guard i) vars s after few (balance, size) e =
    let (g, at_i, made) =
      >>=-returned (guard_at vars i) (λ x. ok (set vars i (emptied x), drop x s)) after e in
    subst (Sound n) (ok-injective made) (
      (λ h p. omega (
        arith,
        balance h p,
        held-drop g.class g.page g.is_dirty s h p,
        total-set h vars i g (emptied g) p (guard_at-found vars i g at_i),
      )),
      length-set vars i (emptied g) ∙ size,
    )
step-Sound n (get_mut i) vars s after few (balance, size) e =
    let (g, at_i, rest) =
      >>=-returned (guard_at vars i) (λ x. get_data_mut x >>= λ m. ok (set vars i m, s)) after e in
    let (marked, made_m, made) =
      >>=-returned (get_data_mut g) (λ m. ok (set vars i m, s)) after rest in
    subst (Sound n) (ok-injective made) (
      (λ h p. omega (
        arith,
        balance h p,
        marked-weight g marked h p made_m,
        total-set h vars i g marked p (guard_at-found vars i g at_i),
      )),
      length-set vars i marked ∙ size,
    )
step-Sound n (move_into i j) vars s after few (balance, size) e =
    let (that, at_j, rest) =
      >>=-returned (guard_at vars j) (λ x. store i x (set vars j (emptied x), s)) after e in
    store-Sound n i that (set vars j (emptied that)) s after
      (λ h p. omega (
        arith,
        balance h p,
        total-set h vars j that (emptied that) p (guard_at-found vars j that at_j),
      ))
      (length-set vars j (emptied that) ∙ size) rest
step-Sound n (upgrade_into i class j) vars s after few (balance, size) e =
    let (g, at_j, rest) =
      >>=-returned (guard_at vars j)
        (λ x. upgrade_of class x s >>= λ (new, old, t). store i new (set vars j old, t)) after e in
    let ((new, old, t), made, stored) =
      >>=-returned (upgrade_of class g s) (λ (new, old, t). store i new (set vars j old, t)) after
        rest in
    let up = upgrade_of-Upgraded g.class g.page g.is_dirty class s (new, old, t) made in
    let found = guard_at-found vars j g at_j in
    store-Sound n i new (set vars j old) t after
      (λ h p.
        let (same, nothing) =
          up h p (omega (arith, balance h p, weight-total h vars j g p found)) in
        omega (arith, same, nothing, balance h p, total-set h vars j g old p found))
      (length-set vars j old ∙ size) stored

run-Sound :
    (n : ℕ) (steps : List Step) (scope after : Scope)
    → n + 1 < 2 ^ 16
    → Sound n scope
    → run steps scope ≡ ok after
    → Sound n after
unfolding run
run-Sound n [] scope after few sound e = subst (Sound n) (ok-injective e) sound
run-Sound n (a ∷ steps) (vars, s) after few sound e =
    let (next, made, rest) = >>=-returned (step a (vars, s)) (run steps) after e in
    run-Sound n steps next after few (step-Sound n a vars s next few sound made) rest

leave-empty :
    (vars : List Guard) (s : Pages) (h : Hold) (p : ℕ)
    → (leave vars s).held h p ≡ s.held h p - total h vars p
unfolding leave total
leave-empty [] s h p = omega arith
leave-empty (g ∷ vars) s h p =
    leave-empty vars (drop g s) h p ∙ omega (arith, held-drop g.class g.page g.is_dirty s h p)

-- Whatever is done with fewer than 2 ^ 16 - 1 guards, from pages and guards in balance, as long as no empty guard is
-- used: every pin and latch that is held afterwards is that of one guard, and when the scope is left then none is held.
pub run-leave :
    (steps : List Step) (scope : Scope) (vars : List Guard) (s : Pages)
    → length scope.0 + 1 < 2 ^ 16
    → IsBalanced scope
    → run steps scope ≡ ok (vars, s)
    → IsBalanced (vars, s) × ((h : Hold) (p : ℕ) → (leave vars s).held h p ≡ 0)
unfolding IsBalanced
run-leave steps scope vars s few balance e =
    let (after, _) = run-Sound (length scope.0) steps scope (vars, s) few (balance, refl) e in
    (after, (λ h p. leave-empty vars s h p ∙ omega (arith, after h p)))
