-- ===== src/Menu/Nav.antt =====
-- src/core/menu.rs: `MenuKey`, `Nav` and `Move`.
use flipperos_installer.Base.{
  ℕ, ◌-◌, ◌≤◌, ◌≡◌, ◌≢◌, refl, List, [], ◌∷◌, length, Option, none, some, Text, if◌then◌else◌, ltb,
  arith,
}

pub data MenuKey : Type 0 where
  root source local custom uboot boot_menu recovery snapshot device profiles fetch : MenuKey
  builds dirs : (path : Text) → MenuKey

pub record Frame : Type 0 where
  pub key : MenuKey
  pub cursor : ℕ

-- `Nav`; the frame on top comes first.
pub record Nav : Type 0 where
  pub stack : List Frame

abbrev root_frame : Frame
root_frame = record { key = root; cursor = 0 }

-- `Nav::new`
abbrev pub new_nav : Nav
new_nav = record { stack = root_frame ∷ [] }

abbrev pub depth : Nav → ℕ
depth nav = length nav.stack - 1

-- `Nav::key`, which panics on an empty stack
abbrev pub top_key : List Frame → Option MenuKey
top_key [] = none
top_key (f ∷ fs) = some f.key

abbrev top_cursor : List Frame → ℕ
top_cursor [] = 0
top_cursor (f ∷ fs) = f.cursor

-- `Nav::cursor`
abbrev pub cursor : Nav → ℕ
cursor nav = top_cursor nav.stack

abbrev with_cursor : ℕ → List Frame → List Frame
with_cursor c [] = []
with_cursor c (f ∷ fs) = record f { cursor = c } ∷ fs

unfoldable pub set_cursor : ℕ → Nav → Nav
set_cursor c nav = record { stack = with_cursor c nav.stack }

unfoldable pub push : MenuKey → Nav → Nav
push key nav = record { stack = record { key = key; cursor = 0 } ∷ nav.stack }

-- The stack that `pop` leaves
abbrev popped : List Frame → List Frame
popped [] = []
popped (f ∷ []) = f ∷ []
popped (f ∷ g ∷ fs) = g ∷ fs

unfoldable pub pop : Nav → Nav
pop nav = record { stack = popped nav.stack }

-- `truncate(1)` keeps the bottom of the stack.
abbrev bottom : List Frame → List Frame
bottom [] = []
bottom (f ∷ []) = f ∷ []
bottom (f ∷ g ∷ fs) = bottom (g ∷ fs)

unfoldable pub reset : Nav → Nav
reset nav = record { stack = bottom nav.stack }

unfoldable pub clamp : ℕ → Nav → Nav
unfolding set_cursor
clamp len nav = if ltb (len - 1) (cursor nav) then set_cursor (len - 1) nav else nav

pub data Move : Type 0 where
  stay pop_level to_root : Move
  push_level : MenuKey → Move

-- `Nav::apply`
unfoldable pub apply_move : Move → Nav → Nav
unfolding push pop reset
apply_move stay nav = nav
apply_move (push_level key) nav = push key nav
apply_move pop_level nav = pop nav
apply_move to_root nav = reset nav

-- What a front end does to its position: a row's outcome, a move of the cursor to a row of the level
-- that it shows, and the adjustment to a level whose contents changed.
pub data Change : Type 0 where
  moved : Move → Change
  cursor_set : ℕ → Change
  clamped : (len : ℕ) → Change

unfoldable pub change : Change → Nav → Nav
unfolding apply_move set_cursor clamp
change (moved mv) = apply_move mv
change (cursor_set c) = set_cursor c
change (clamped len) = clamp len

unfoldable pub change_all : List Change → Nav → Nav
unfolding change
change_all [] nav = nav
change_all (c ∷ cs) nav = change_all cs (change c nav)

-- The frame at the bottom of the stack is the summary's.
abbrev pub IsRooted : List Frame → Type 0
IsRooted [] = ⊥
IsRooted (f ∷ []) = f.key ≡ root
IsRooted (f ∷ g ∷ fs) = IsRooted (g ∷ fs)

bottom-IsRooted : (fs : List Frame) → IsRooted fs → IsRooted (bottom fs)
bottom-IsRooted [] h = h
bottom-IsRooted (f ∷ []) h = h
bottom-IsRooted (f ∷ g ∷ fs) h = bottom-IsRooted (g ∷ fs) h

popped-IsRooted : (fs : List Frame) → IsRooted fs → IsRooted (popped fs)
popped-IsRooted [] h = h
popped-IsRooted (f ∷ []) h = h
popped-IsRooted (f ∷ g ∷ fs) h = h

pushed-IsRooted : (f : Frame) (fs : List Frame) → IsRooted fs → IsRooted (f ∷ fs)
pushed-IsRooted f [] h = elim h [ ]
pushed-IsRooted f (g ∷ fs) h = h

with_cursor-IsRooted : (c : ℕ) (fs : List Frame) → IsRooted fs → IsRooted (with_cursor c fs)
with_cursor-IsRooted c [] h = h
with_cursor-IsRooted c (f ∷ []) h = h
with_cursor-IsRooted c (f ∷ g ∷ fs) h = h

change-IsRooted : (c : Change) (nav : Nav) → IsRooted nav.stack → IsRooted (change c nav).stack
unfolding change apply_move push pop reset set_cursor clamp
change-IsRooted (moved stay) nav h = h
change-IsRooted (moved pop_level) nav h = popped-IsRooted nav.stack h
change-IsRooted (moved to_root) nav h = bottom-IsRooted nav.stack h
change-IsRooted (moved (push_level key)) nav h =
    pushed-IsRooted (record { key = key; cursor = 0 }) nav.stack h
change-IsRooted (cursor_set c) nav h = with_cursor-IsRooted c nav.stack h
change-IsRooted (clamped len) nav h = ground (arith, with_cursor-IsRooted (len - 1) nav.stack h)

all-IsRooted :
    (cs : List Change) (nav : Nav) → IsRooted nav.stack → IsRooted (change_all cs nav).stack
unfolding change_all
all-IsRooted [] nav h = h
all-IsRooted (c ∷ cs) nav h = all-IsRooted cs (change c nav) (change-IsRooted c nav h)

rooted_key : (fs : List Frame) → IsRooted fs → top_key fs ≢ none
rooted_key [] h e = elim h [ ]
rooted_key (f ∷ fs) h e = cc

clamp-cursor : (len : ℕ) (nav : Nav) → cursor (clamp len nav) ≤ len - 1
unfolding clamp set_cursor
clamp-cursor len nav = ground arith

opened_back : (key : MenuKey) (nav : Nav) → IsRooted nav.stack → pop (push key nav) ≡ nav
unfolding pop push
opened_back key nav h = ground arith

-- Wherever the changes of its position have led a front end: the summary is at the bottom of its
-- stack, so asking for the level that is shown never panics; to open a level and leave it is to be
-- where it was, cursor included; and an adjustment to a level leaves the cursor on one of its rows,
-- or on the first one where it has none.
pub change_all-IsRooted :
    (cs : List Change) (key : MenuKey) (len : ℕ)
    → IsRooted (change_all cs new_nav).stack
      × (top_key (change_all cs new_nav).stack ≢ none)
      × (apply_move pop_level (apply_move (push_level key) (change_all cs new_nav))
          ≡ change_all cs new_nav)
      × (cursor (clamp len (change_all cs new_nav)) ≤ len - 1)
unfolding apply_move
change_all-IsRooted cs key len =
    let h = all-IsRooted cs new_nav refl in
    let nav = change_all cs new_nav in
    (h, rooted_key nav.stack h, opened_back key nav h, clamp-cursor len nav)
