-- ===== src/Guards/Held.antt =====
-- What the guards of the pages hold (Guard), and what the operations do to it.
use gavin_db.Prelude.{
  ℕ, length, ◌^◌, ◌<◌, zero, suc, ◌+◌, ◌-◌, ◌≤◌, ◌≡◌, refl, ap, List, [], ◌∷◌, get_elem?, set,
  Option, none, some, Result, ok, err, undefined_behaviour, ok-injective, ◌==◌, Bool, true, false,
  ◌&&◌, if◌then◌else◌, arith,
}
use mathlib.Core.Path.{subst}
use mathlib.Core.Option.{some-injective}
use gavin_db.Guards.Guard.{
  Hold, pinned, reading, writing, Guard, GuardClass, basic_page_guard, read_page_guard,
  write_page_guard, Pages, drop, basic_drop, read_drop, write_drop, unpin, give_back, take_hold,
  pin_again, latch, fetch, upgrade, read_upgrade_write, get_data_mut, new_guard,
}
use gavin_db.Guards.Scope.{guard_at, upgrade_of}

-- What a class of guards holds of its page.
unfoldable pub class_holds : Hold → GuardClass → Bool
class_holds pinned class = true
class_holds reading read_page_guard = true
class_holds reading basic_page_guard = false
class_holds reading write_page_guard = false
class_holds writing write_page_guard = true
class_holds writing basic_page_guard = false
class_holds writing read_page_guard = false

unfoldable pub weight_of : Hold → GuardClass → Option ℕ → ℕ → ℕ
unfolding class_holds
weight_of h class none p = 0
weight_of h class (some q) p = if class_holds h class && q == p then 1 else 0

abbrev pub weight : Hold → Guard → ℕ → ℕ
weight h g p = weight_of h g.class g.page p

-- What the guards hold of a page together.
unfoldable pub total : Hold → List Guard → ℕ → ℕ
unfolding weight_of
total h [] p = 0
total h (g ∷ vars) p = weight h g p + total h vars p

pub held-drop :
    (class : GuardClass) (page : Option ℕ) (is_dirty : Bool) (s : Pages) (h : Hold) (p : ℕ)
    → (drop record { class = class; page = page; is_dirty = is_dirty } s).held h p
      ≡ s.held h p - weight_of h class page p
unfolding drop basic_drop read_drop write_drop unpin give_back weight_of class_holds
held-drop basic_page_guard none d s h p = omega arith
held-drop read_page_guard none d s h p = omega arith
held-drop write_page_guard none d s h p = omega arith
held-drop basic_page_guard (some q) d s pinned p = ground arith
held-drop basic_page_guard (some q) d s reading p = ground arith
held-drop basic_page_guard (some q) d s writing p = ground arith
held-drop read_page_guard (some q) d s pinned p = ground arith
held-drop read_page_guard (some q) d s reading p = ground arith
held-drop read_page_guard (some q) d s writing p = ground arith
held-drop write_page_guard (some q) d s pinned p = ground arith
held-drop write_page_guard (some q) d s reading p = ground arith
held-drop write_page_guard (some q) d s writing p = ground arith

pub held-fetch :
    (class : GuardClass) (q : ℕ) (s : Pages) (h : Hold) (p : ℕ)
    → s.held h p + 1 < 2 ^ 16
    → (fetch class q s).1.held h p ≡ s.held h p + weight h (new_guard class q) p
unfolding fetch latch take_hold pin_again weight_of class_holds
held-fetch basic_page_guard q s pinned p few = ground arith
held-fetch basic_page_guard q s reading p few = ground arith
held-fetch basic_page_guard q s writing p few = ground arith
held-fetch read_page_guard q s pinned p few = ground arith
held-fetch read_page_guard q s reading p few = ground arith
held-fetch read_page_guard q s writing p few = ground arith
held-fetch write_page_guard q s pinned p few = ground arith
held-fetch write_page_guard q s reading p few = ground arith
held-fetch write_page_guard q s writing p few = ground arith

weight-le : (h : Hold) (class : GuardClass) (page : Option ℕ) (p : ℕ) → weight_of h class page p ≤ 1
unfolding weight_of
weight-le h class none p = omega arith
weight-le h class (some q) p = ground arith

-- No more than there are guards.
pub total-le : (h : Hold) (vars : List Guard) (p : ℕ) → total h vars p ≤ length vars
unfolding total
total-le h [] p = omega arith
total-le h (g ∷ vars) p = omega (arith, weight-le h g.class g.page p, total-le h vars p)

pub total-set :
    (h : Hold) (vars : List Guard) (i : ℕ) (g new : Guard) (p : ℕ)
    → get_elem? vars i ≡ some g
    → total h (set vars i new) p + weight h g p ≡ total h vars p + weight h new p
unfolding total
total-set h [] i g new p e = cc
total-set h (x ∷ vars) zero g new p e =
    omega (arith, ap (λ (y : Guard). weight h y p) (some-injective x g e))
total-set h (x ∷ vars) (suc i) g new p e = omega (arith, total-set h vars i g new p e)

pub guard_at-found :
    (vars : List Guard) (i : ℕ) (g : Guard) → guard_at vars i ≡ ok g → get_elem? vars i ≡ some g
guard_at-found vars i g h = found (get_elem? vars i) h
  where
    found :
        (o : Option Guard)
        → elim o as (λ _. Result Guard) [ none ↦ err undefined_behaviour | some x ↦ ok x ] ≡ ok g
        → o ≡ some g
    found none e = cc
    found (some x) e = ap some (ok-injective e)

-- What an upgrade does to what is held: the new guard has its page in place of the old one.
unfoldable pub Upgraded : Guard → Pages → Guard × Guard × Pages → Type 0
unfolding weight_of
Upgraded g s (new, old, after) =
    (h : Hold) (p : ℕ)
    → weight h g p ≤ s.held h p
    → (after.held h p + weight h g p ≡ s.held h p + weight h new p) × (weight h old p ≡ 0)

latched :
    (class : GuardClass) (q : ℕ) (is_dirty : Bool) (s : Pages)
    → Upgraded
        (record { class = basic_page_guard; page = some q; is_dirty = is_dirty })
        s
        (
          new_guard class q,
          record { class = basic_page_guard; page = none; is_dirty = is_dirty },
          latch class q s,
        )
unfolding Upgraded latch take_hold pin_again weight_of class_holds
latched basic_page_guard q d s pinned p h = (ground arith, refl)
latched basic_page_guard q d s reading p h = (ground arith, refl)
latched basic_page_guard q d s writing p h = (ground arith, refl)
latched read_page_guard q d s pinned p h = (ground arith, refl)
latched read_page_guard q d s reading p h = (ground arith, refl)
latched read_page_guard q d s writing p h = (ground arith, refl)
latched write_page_guard q d s pinned p h = (ground arith, refl)
latched write_page_guard q d s reading p h = (ground arith, refl)
latched write_page_guard q d s writing p h = (ground arith, refl)

relatched :
    (q : ℕ) (is_dirty : Bool) (s : Pages)
    → Upgraded
        (record { class = read_page_guard; page = some q; is_dirty = is_dirty })
        s
        (
          new_guard write_page_guard q,
          record { class = read_page_guard; page = none; is_dirty = is_dirty },
          latch write_page_guard q (give_back reading q s),
        )
unfolding Upgraded latch take_hold pin_again give_back weight_of class_holds
relatched q d s pinned p h = (ground arith, refl)
relatched q d s reading p h = (ground arith, refl)
relatched q d s writing p h = (ground arith, refl)

pub upgrade_of-Upgraded :
    (old_class : GuardClass) (page : Option ℕ) (is_dirty : Bool) (class : GuardClass) (s : Pages)
    (r : Guard × Guard × Pages)
    → upgrade_of class (record { class = old_class; page = page; is_dirty = is_dirty }) s ≡ ok r
    → Upgraded (record { class = old_class; page = page; is_dirty = is_dirty }) s r
unfolding upgrade_of upgrade read_upgrade_write
upgrade_of-Upgraded basic_page_guard page d basic_page_guard s r e = cc
upgrade_of-Upgraded basic_page_guard none d read_page_guard s r e = cc
upgrade_of-Upgraded basic_page_guard none d write_page_guard s r e = cc
upgrade_of-Upgraded basic_page_guard (some q) d read_page_guard s r e =
    subst (Upgraded (record { class = basic_page_guard; page = some q; is_dirty = d }) s)
      (ok-injective e) (latched read_page_guard q d s)
upgrade_of-Upgraded basic_page_guard (some q) d write_page_guard s r e =
    subst (Upgraded (record { class = basic_page_guard; page = some q; is_dirty = d }) s)
      (ok-injective e) (latched write_page_guard q d s)
upgrade_of-Upgraded read_page_guard none d write_page_guard s r e = cc
upgrade_of-Upgraded read_page_guard (some q) d write_page_guard s r e =
    subst (Upgraded (record { class = read_page_guard; page = some q; is_dirty = d }) s)
      (ok-injective e) (relatched q d s)
upgrade_of-Upgraded read_page_guard page d basic_page_guard s r e = cc
upgrade_of-Upgraded read_page_guard page d read_page_guard s r e = cc
upgrade_of-Upgraded write_page_guard page d class s r e = cc

pub weight-total :
    (h : Hold) (vars : List Guard) (i : ℕ) (g : Guard) (p : ℕ)
    → get_elem? vars i ≡ some g
    → weight h g p ≤ total h vars p
unfolding total
weight-total h [] i g p e = cc
weight-total h (x ∷ vars) zero g p e =
    omega (arith, ap (λ (y : Guard). weight h y p) (some-injective x g e))
weight-total h (x ∷ vars) (suc i) g p e = omega (arith, weight-total h vars i g p e)

-- A guard that is marked holds what it held.
pub marked-weight :
    (g marked : Guard) (h : Hold) (p : ℕ)
    → get_data_mut g ≡ ok marked
    → weight h g p ≡ weight h marked p
unfolding get_data_mut
marked-weight g marked h p e = go g.page refl e
  where
    go :
        (page : Option ℕ)
        → page ≡ g.page
        → elim page as (λ _. Result Guard) [
          | none ↦ err undefined_behaviour
          | some q ↦ ok (record g { is_dirty = true })
        ]
          ≡ ok marked
        → weight h g p ≡ weight h marked p
    go none at e = cc
    go (some q) at e = ap (λ (x : Guard). weight h x p) (ok-injective e)
