-- ===== src/Guards/Guard.antt =====
-- BasicPageGuard, ReadPageGuard and WritePageGuard (page_guard.cpp), and the calls of the pool that make them
-- (buffer_pool.cpp). Of each page the pins, readers and writers are counted.
use gavin_db.Prelude.{
  ℕ, ◌+◌, ◌-◌, ◌%◌, ◌^◌, ◌==◌, Bool, true, false, ◌&&◌, ◌||◌, Option, none, some, Result, ok, err,
  undefined_behaviour, put_at, if◌then◌else◌,
}

-- What a guard has of its page: a pin, and a latch by its class.
pub data Hold : Type 0 where
  pinned reading writing : Hold

pub data GuardClass : Type 0 where
  basic_page_guard read_page_guard write_page_guard : GuardClass

-- The pages, each under its number.
pub record Pages : Type 0 where
  pub held : Hold → ℕ → ℕ
  pub dirty : ℕ → Bool

-- A guard of one of the classes; `bpm_` is null when `page_` is.
pub record Guard : Type 0 where
  pub class : GuardClass
  pub page : Option ℕ
  pub is_dirty : Bool

abbrev same_hold : Hold → Hold → Bool
same_hold pinned pinned = true
same_hold reading reading = true
same_hold writing writing = true
same_hold _ _ = false

-- A pin more on a `uint16_t`, or a latch more.
unfoldable pub pin_again : Hold → ℕ → ℕ
pin_again pinned n = (n + 1) % 2 ^ 16
pin_again reading n = n + 1
pin_again writing n = n + 1

-- A pin or latch more, and less; `UnpinPage` leaves a count of 0 as it is.
unfoldable pub take_hold : Hold → ℕ → Pages → Pages
unfolding pin_again
take_hold h p s = record s {
  held = λ g q. if same_hold h g && p == q then pin_again g (s.held g q) else s.held g q;
}

unfoldable pub give_back : Hold → ℕ → Pages → Pages
give_back h p s = record s {
  held = λ g q. if same_hold h g && p == q then s.held g q - 1 else s.held g q;
}

-- `UnpinPage`
unfoldable pub unpin : ℕ → Bool → Pages → Pages
unfolding give_back
unpin p is_dirty s =
    give_back pinned p (record s { dirty = put_at s.dirty p (is_dirty || s.dirty p) })

abbrev pub new_guard : GuardClass → ℕ → Guard
new_guard class p = record { class = class; page = some p; is_dirty = false }

-- The guard without its page.
abbrev pub emptied : Guard → Guard
emptied g = record g { page = none }

-- `BasicPageGuard::Drop`
unfoldable pub basic_drop : Guard → Pages → Pages
unfolding unpin
basic_drop g s = elim (g.page) [ none ↦ s | some p ↦ unpin p g.is_dirty s ]

-- `ReadPageGuard::Drop`
unfoldable pub read_drop : Guard → Pages → Pages
unfolding basic_drop give_back
read_drop g s = elim (g.page) [
  | none ↦ basic_drop g s
  | some p ↦ basic_drop g (give_back reading p s)
]

-- `WritePageGuard::Drop`
unfoldable pub write_drop : Guard → Pages → Pages
unfolding basic_drop give_back
write_drop g s = elim (g.page) [
  | none ↦ basic_drop g s
  | some p ↦ basic_drop g (give_back writing p s)
]

-- `Drop` of the guard's class, which is its destructor as well; the guard is emptied.
unfoldable pub drop : Guard → Pages → Pages
unfolding basic_drop read_drop write_drop
drop g s = elim (g.class) [
  | basic_page_guard ↦ basic_drop g s
  | read_page_guard ↦ read_drop g s
  | write_page_guard ↦ write_drop g s
]

-- The latch of a class of guards.
unfoldable pub latch : GuardClass → ℕ → Pages → Pages
unfolding take_hold
latch basic_page_guard p s = s
latch read_page_guard p s = take_hold reading p s
latch write_page_guard p s = take_hold writing p s

-- `FetchPageBasic`, `FetchPageRead` and `FetchPageWrite`, where the pool has the page.
unfoldable pub fetch : GuardClass → ℕ → Pages → Guard × Pages
unfolding latch take_hold
fetch class p s = (new_guard class p, latch class p (take_hold pinned p s))

-- `BasicPageGuard::UpgradeRead` and `UpgradeWrite`: the new guard, the old one, and the pages.
unfoldable pub upgrade : GuardClass → Guard → Pages → Result (Guard × Guard × Pages)
unfolding latch
upgrade class g s = elim (g.page) [
  | none ↦ err undefined_behaviour
  | some p ↦ ok (new_guard class p, emptied g, latch class p s)
]

-- `ReadPageGuard::UpgradeWrite`
unfoldable pub read_upgrade_write : Guard → Pages → Result (Guard × Guard × Pages)
unfolding upgrade give_back
read_upgrade_write g s = elim (g.page) [
  | none ↦ err undefined_behaviour
  | some p ↦ upgrade write_page_guard g (give_back reading p s)
]

-- `GetDataMut`
unfoldable pub get_data_mut : Guard → Result Guard
get_data_mut g = elim (g.page) [
  | none ↦ err undefined_behaviour
  | some p ↦ ok (record g { is_dirty = true })
]

-- `operator=` from another guard: this guard's page is dropped, and it becomes that guard, which is emptied.
unfoldable pub assign : Guard → Guard → Pages → Guard × Guard × Pages
unfolding drop
assign this that s = (that, emptied that, drop this s)
