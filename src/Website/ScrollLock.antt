-- ===== src/Website/ScrollLock.antt =====
-- The lock on scrolling while a menu is open: apps/website/src/lib/scroll-lock.ts, with its clients
-- hooks/use-popover-scroll-lock.ts and use-smooth-scroll.ts. Of the scroller that a library gives it
-- is kept whether it was stopped.
pub mod Held
mod Examples
use solva.Prelude.{
  ℕ, ◌+◌, ◌-◌, Bool, true, false, not, ◌&&◌, Option, none, some, ltb, if◌then◌else◌,
}

-- The module's state and the class of the document.
pub record Scroll : Type 0 where
  pub scroller : Option Bool
  pub locks : ℕ
  pub has_class : Bool

-- `scroller?.stop()` and `scroller?.start()`.
unfoldable pub told : Bool → Option Bool → Option Bool
told stopped none = none
told stopped (some before) = some stopped

-- A scroller is registered as it was made, or stopped at once.
unfoldable pub register_scroller : Option Bool → Scroll → Scroll
unfolding told
register_scroller next scroll = record scroll {
  scroller = if ltb 0 scroll.locks then told true next else next;
}

unfoldable pub lock_scroll : Scroll → Scroll
unfolding told
lock_scroll scroll = record {
  scroller = told true scroll.scroller;
  locks = scroll.locks + 1;
  has_class = true;
}

-- The subtraction stops at 0.
unfoldable pub unlock_scroll : Scroll → Scroll
unfolding told
unlock_scroll scroll =
    let locks = scroll.locks - 1 in
    if ltb 0 locks
    then record scroll { locks = locks }
    else record { scroller = told false scroll.scroller; locks = locks; has_class = false }

-- The hook's variable `locked`, and the module's state.
unfoldable pub on_toggle : Bool → Bool → Scroll → Bool × Scroll
on_toggle true false scroll = (true, lock_scroll scroll)
on_toggle false true scroll = (false, unlock_scroll scroll)
on_toggle true true scroll = (true, scroll)
on_toggle false false scroll = (false, scroll)

-- The hook's cleanup.
unfoldable pub clean_up : Bool → Scroll → Scroll
clean_up true scroll = unlock_scroll scroll
clean_up false scroll = scroll

-- Smooth scrolling is wanted or not, and one scroller at most is made for it.
unfoldable pub sync_with : Option Bool → Bool → Scroll → Scroll
unfolding register_scroller
sync_with none reduced scroll = if reduced then scroll else register_scroller (some false) scroll
sync_with (some stopped) reduced scroll = if reduced then register_scroller none scroll else scroll

unfoldable pub sync : Bool → Scroll → Scroll
unfolding sync_with
sync reduced scroll = sync_with scroll.scroller reduced scroll
