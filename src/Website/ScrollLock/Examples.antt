-- ===== src/Website/ScrollLock/Examples.antt =====
-- Two menus, one of them open, and a scroller.
use solva.Prelude.{◌≡◌, refl, true, false, [], ◌∷◌, some}
use solva.Website.ScrollLock.{sync, on_toggle, lock_scroll, sync_with, register_scroller, told}
use solva.Website.ScrollLock.Held.{
  Site, fresh, Reached, opening, mounts, toggles, syncs, count_open, Held, scroll-Held,
}

abbrev mounted : Site
mounted = record fresh { menus = false ∷ false ∷ []; scroll = sync false fresh.scroll }

abbrev one_open : Site
one_open = record {
  menus = (on_toggle true false mounted.scroll).0 ∷ false ∷ [];
  scroll = (on_toggle true false mounted.scroll).1;
}

one_open_reached : Reached one_open
one_open_reached = toggles [] (false ∷ []) false true refl (syncs false (mounts (mounts opening)))

stopped : one_open.scroll.scroller ≡ some true
unfolding on_toggle lock_scroll sync sync_with register_scroller told
stopped = refl

scroll-Held_example : Held (count_open one_open.menus) one_open.scroll
scroll-Held_example = scroll-Held one_open one_open_reached
