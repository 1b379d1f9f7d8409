-- ===== src/Website/Blog.antt =====
-- What the posts of the site show of themselves: apps/website/src/features/blog/lib/format-date.ts
-- and reading-time.ts.
mod Examples
use solva.Prelude.{
  ℕ, ◌+◌, ◌-◌, ◌*◌, ◌/◌, ◌≡◌, ◌≤◌, Bool, true, false, ◌&&◌, List, [], ◌∷◌, ◌++◌, Option, none, some,
  ◌==◌, leb, ltb, if◌then◌else◌, length, take, drop, get_elem?, arith,
}
use solva.Prelude.Text.{
  Text, codes, text_eq, is_digit, is_space, is_truthy, all_of, value, print_nat, join, trim,
}
use solva.Prelude.Effect.{Result, ok, err}

abbrev months : List Text
months =
    codes "January"
    ∷ codes "February"
    ∷ codes "March"
    ∷ codes "April"
    ∷ codes "May"
    ∷ codes "June"
    ∷ codes "July"
    ∷ codes "August"
    ∷ codes "September"
    ∷ codes "October"
    ∷ codes "November"
    ∷ codes "December"
    ∷ []

-- `/^(\d{4})-(\d{2})-(\d{2})$/`.
unfoldable is_iso_date : Text → Bool
is_iso_date iso =
    (length iso == 10)
    && all_of is_digit (take 4 iso)
    && text_eq (take 1 (drop 4 iso)) (codes "-")
    && all_of is_digit (take 2 (drop 5 iso))
    && text_eq (take 1 (drop 7 iso)) (codes "-")
    && all_of is_digit (drop 8 iso)

-- `MONTHS[month - 1]`, which is undefined for 0.
month_name : ℕ → Option Text
month_name month = if month == 0 then none else get_elem? months (month - 1)

dated : Text → Option Text → Result Text Text
dated iso none = err (codes "Not a month: " ++ iso)
dated iso (some name) =
    ok (join (print_nat (value (drop 8 iso)) ∷ codes " " ∷ name ∷ codes " " ∷ take 4 iso ∷ []))

unfoldable pub format_post_date : Text → Result Text Text
unfolding is_iso_date month_name dated
format_post_date iso =
    if is_iso_date iso
    then dated iso (month_name (value (take 2 (drop 5 iso))))
    else err (codes "Not an ISO date: " ++ iso)

-- How many runs of no space a text has, told whether one is open before it.
words_from : Bool → Text → ℕ
words_from inside [] = 0
words_from inside (c ∷ s) =
    (if is_space c then 0 else (if inside then 0 else 1))
    + words_from (if is_space c then false else true) s

-- `Math.max(1, Math.round(words / 220))`.
unfoldable pub reading_minutes : Text → ℕ
unfolding words_from
reading_minutes text =
    let rounded = (2 * words_from false (trim text) + 220) / 440 in
    if ltb rounded 1 then 1 else rounded

reading_minutes_pos : (text : Text) → 1 ≤ reading_minutes text
unfolding reading_minutes
reading_minutes_pos text = ground arith
