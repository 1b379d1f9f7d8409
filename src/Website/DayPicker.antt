-- ===== src/Website/DayPicker.antt =====
-- apps/website/src/features/product/hooks/use-day-picker.ts: the day of the record that is
-- selected. A button's node is a parameter; the ref's map is a list of pairs.
use solva.Prelude.{
  ℕ, ◌+◌, ◌-◌, ◌<◌, ◌≡◌, refl, Bool, true, false, ◌||◌, List, [], ◌∷◌, Option, none, some, ltb,
  ◌==◌, if◌then◌else◌, arith,
}
use Prim.Native.Nat.{zero, suc, min}
use solva.Prelude.Int.{ℤ, pos, negsuc}
use solva.Prelude.Text.{Text, codes, text_eq}

-- `count - 1`, which is negative without a day.
abbrev last_index : ℕ → ℤ
last_index count = if count == 0 then negsuc 0 else pos (count - 1)

abbrev is_one_of : Text → Text → Text → Bool
is_one_of key first second = text_eq key first || text_eq key second

unfoldable next_day_index : Text → ℕ → ℕ → Option ℕ
next_day_index key index count =
    if count == 0
    then none
    else if is_one_of key (codes "ArrowRight") (codes "ArrowDown")
    then some (min (index + 1) (count - 1))
    else if is_one_of key (codes "ArrowLeft") (codes "ArrowUp")
    then some (index - 1)
    else if text_eq key (codes "Home")
    then some 0
    else if text_eq key (codes "End")
    then some (count - 1)
    else none

pub record DayPicker (Node : Type 0) : Type 0 where
  pub selected : ℤ
  pub buttons : List (ℕ × Node)

unfoldable mount : {Node : Type 0} → ℕ → DayPicker Node
mount count = record { selected = last_index count; buttons = [] }

unfoldable forget : {Node : Type 0} → ℕ → List (ℕ × Node) → List (ℕ × Node)
forget index [] = []
forget index (entry ∷ entries) =
    if entry.0 == index then forget index entries else entry ∷ forget index entries

unfoldable button_at : {Node : Type 0} → ℕ → List (ℕ × Node) → Option Node
button_at index [] = none
button_at index (entry ∷ entries) =
    if entry.0 == index then some entry.1 else button_at index entries

unfoldable register : {Node : Type 0} → ℕ → Option Node → DayPicker Node → DayPicker Node
unfolding forget
register index none picker = record {
  selected = picker.selected;
  buttons = forget index picker.buttons;
}
register index (some node) picker = record {
  selected = picker.selected;
  buttons = (index, node) ∷ forget index picker.buttons;
}

-- The comparison with 0 always holds for an index of the days.
unfoldable select : {Node : Type 0} → (count index : ℕ) → DayPicker Node → DayPicker Node
select count index picker =
    if ltb index count then record { selected = pos index; buttons = picker.buttons } else picker

-- Whether the event's own effect is prevented, and the button that takes the focus.
pub record Handled (Node : Type 0) : Type 0 where
  pub picker : DayPicker Node
  pub prevented : Bool
  pub focused : Option Node

unfoldable move : {Node : Type 0} → Option ℕ → DayPicker Node → Handled Node
unfolding button_at
move none picker = record { picker = picker; prevented = false; focused = none }
move (some next) picker = record {
  picker = record { selected = pos next; buttons = picker.buttons };
  prevented = true;
  focused = button_at next picker.buttons;
}

unfoldable handle_key_down :
    {Node : Type 0} → (count : ℕ) (key : Text) (index : ℕ) → DayPicker Node → Handled Node
unfolding next_day_index move
handle_key_down count key index picker = move (next_day_index key index count) picker

-- The index that a key leads to is one of a day, from a day's index.
next_day_index-lt :
    (key : Text) (index count next : ℕ)
    → index < count
    → next_day_index key index count ≡ some next
    → next < count
unfolding next_day_index
next_day_index-lt key index count next h found = ground arith

-- Some day is selected.
abbrev IsOnDay : {Node : Type 0} → ℕ → DayPicker Node → Type 0
IsOnDay count picker = (day : ℕ) × (picker.selected ≡ pos day) × (day < count)

last_index-suc : (n : ℕ) → last_index (suc n) ≡ pos n
last_index-suc n = ground arith

mount-IsOnDay : (Node : Type 0) (count : ℕ) → 0 < count → IsOnDay count (mount {Node = Node} count)
unfolding mount
mount-IsOnDay Node zero h = elim h [ ]
mount-IsOnDay Node (suc n) h = (n, last_index-suc n, omega arith)

select-IsOnDay :
    {Node : Type 0}
    → (count index : ℕ) (picker : DayPicker Node) → IsOnDay count picker
    → IsOnDay count (select count index picker)
unfolding select
select-IsOnDay count index picker h = go (ltb index count) refl
  where
    go :
        (below : Bool)
        → ltb index count ≡ below
        → IsOnDay count
            (if below then record { selected = pos index; buttons = picker.buttons } else picker)
    go true e = (index, refl, ground arith)
    go false e = h

-- A key pressed on a day's button leaves a day selected, the one focused if any is.
handle_key_down-IsOnDay :
    {Node : Type 0}
    → (count : ℕ) (key : Text) (index : ℕ) (picker : DayPicker Node) → index < count
    → IsOnDay count picker
    → IsOnDay count ((handle_key_down count key index picker).picker)
unfolding handle_key_down
handle_key_down-IsOnDay count key index picker below h =
    go (next_day_index key index count) (λ next e. next_day_index-lt key index count next below e)
  where
    go :
        (next : Option ℕ)
        → ((day : ℕ) → next ≡ some day → day < count)
        → IsOnDay count ((move next picker).picker)
    go none bounded = h
    go (some day) bounded = (day, refl, bounded day refl)
