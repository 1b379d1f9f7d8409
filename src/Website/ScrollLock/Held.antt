-- ===== src/Website/ScrollLock/Held.antt =====
-- When scrolling is held: scroll-lock.ts under its clients.
use solva.Prelude.{
  ℕ, ◌+◌, ◌-◌, ◌≡◌, refl, sym, Bool, true, false, List, [], ◌∷◌, ◌++◌, Option, none, some, ltb,
  Bool-cases, inl, inr, ◌∙◌, arith,
}
use mathlib.Core.Path.{subst}
use solva.Website.ScrollLock.{
  Scroll, told, register_scroller, lock_scroll, unlock_scroll, on_toggle, clean_up, sync, sync_with,
}

-- The menus that are mounted, each with the hook's variable, and the module's state.
pub record Site : Type 0 where
  pub menus : List Bool
  pub scroll : Scroll

abbrev pub fresh : Site
fresh = record { menus = []; scroll = record { scroller = none; locks = 0; has_class = false } }

pub data Reached : Site → Type 0 where
  opening : Reached fresh
  mounts : {site : Site} → Reached site → Reached (record site { menus = false ∷ site.menus })
  toggles :
      {site : Site} (before behind : List Bool) (locked opens : Bool)
      → site.menus ≡ before ++ locked ∷ behind
      → Reached site
      → Reached (record {
        menus = before ++ (on_toggle opens locked site.scroll).0 ∷ behind;
        scroll = (on_toggle opens locked site.scroll).1;
      })
  unmounts :
      {site : Site} (before behind : List Bool) (locked : Bool)
      → site.menus ≡ before ++ locked ∷ behind
      → Reached site
      → Reached (record { menus = before ++ behind; scroll = clean_up locked site.scroll })
  syncs :
      {site : Site} (reduced : Bool)
      → Reached site
      → Reached (record site { scroll = sync reduced site.scroll })

abbrev pub count_open : List Bool → ℕ
count_open [] = 0
count_open (true ∷ menus) = count_open menus + 1
count_open (false ∷ menus) = count_open menus

abbrev pub Agrees : Option Bool → ℕ → Type 0
Agrees none locks = Unit {0}
Agrees (some stopped) locks = stopped ≡ ltb 0 locks

count-middle :
    (before behind : List Bool) (b : Bool)
    → count_open (before ++ b ∷ behind) ≡ count_open (b ∷ []) + count_open (before ++ behind)
count-middle [] behind true = omega arith
count-middle [] behind false = omega arith
count-middle (true ∷ before) behind b = omega (arith, count-middle before behind b)
count-middle (false ∷ before) behind b = omega (arith, count-middle before behind b)

count-opened :
    (before behind : List Bool)
    → count_open (before ++ true ∷ behind) ≡ count_open (before ++ false ∷ behind) + 1
count-opened before behind =
    omega (arith, count-middle before behind true, count-middle before behind false)

count-after :
    (before behind : List Bool)
    → count_open (before ++ true ∷ behind) ≡ count_open (before ++ behind) + 1
count-after before behind = omega (arith, count-middle before behind true)

-- With `n` open menus: the lock counts them, the class stands while there is one, and a scroller is
-- stopped then.
abbrev pub Held : ℕ → Scroll → Type 0
Held n scroll = (scroll.locks ≡ n) × (scroll.has_class ≡ ltb 0 n) × Agrees scroll.scroller n

told-Agrees :
    (stopped : Bool) (scroller : Option Bool) (n : ℕ)
    → stopped ≡ ltb 0 n
    → Agrees (told stopped scroller) n
unfolding told
told-Agrees stopped none n h = tt
told-Agrees stopped (some before) n h = h

Agrees-kept :
    (scroller : Option Bool) (m n : ℕ) → ltb 0 m ≡ ltb 0 n → Agrees scroller m → Agrees scroller n
Agrees-kept none m n h agrees = tt
Agrees-kept (some stopped) m n h agrees = agrees ∙ h

lock-Held : (n : ℕ) (scroll : Scroll) → Held n scroll → Held (n + 1) (lock_scroll scroll)
unfolding lock_scroll
lock-Held n scroll (counted, marked, stopped) =
    (omega (arith, counted), ground arith, told-Agrees true scroll.scroller (n + 1) (ground arith))

unlock-Held : (n : ℕ) (scroll : Scroll) → Held (n + 1) scroll → Held n (unlock_scroll scroll)
unfolding unlock_scroll
unlock-Held n scroll (counted, marked, stopped) = elim (Bool-cases (ltb 0 (scroll.locks - 1))) [
  | inl more ↦ rw more (
    omega (arith, counted),
    ground arith,
    Agrees-kept scroll.scroller (n + 1) n (ground arith) stopped,
  )
  | inr last ↦
      rw last
        (omega (arith, counted), ground arith, told-Agrees false scroll.scroller n (ground arith))
]

register-Held :
    (next : Option Bool) (n : ℕ) (scroll : Scroll)
    → Agrees next 0
    → Held n scroll
    → Held n (register_scroller next scroll)
unfolding register_scroller
register-Held next n scroll fits (counted, marked, stopped) =
    elim (Bool-cases (ltb 0 scroll.locks)) [
      | inl held ↦ rw held (counted, marked, told-Agrees true next n (ground arith))
      | inr free ↦ rw free (counted, marked, Agrees-kept next 0 n (ground arith) fits)
    ]

sync-Held :
    (scroller : Option Bool) (reduced : Bool) (n : ℕ) (scroll : Scroll)
    → Held n scroll
    → Held n (sync_with scroller reduced scroll)
unfolding sync_with
sync-Held none true n scroll h = h
sync-Held none false n scroll h = register-Held (some false) n scroll (ground arith) h
sync-Held (some stopped) true n scroll h = register-Held none n scroll tt h
sync-Held (some stopped) false n scroll h = h

toggle-Held :
    (before behind : List Bool) (opens locked : Bool) (scroll : Scroll)
    → Held (count_open (before ++ locked ∷ behind)) scroll
    → Held
        (count_open (before ++ (on_toggle opens locked scroll).0 ∷ behind))
        (on_toggle opens locked scroll).1
unfolding on_toggle
toggle-Held before behind true true scroll h = h
toggle-Held before behind false false scroll h = h
toggle-Held before behind true false scroll h =
    subst (λ (n : ℕ). Held n (lock_scroll scroll)) (sym (count-opened before behind))
      (lock-Held (count_open (before ++ false ∷ behind)) scroll h)
toggle-Held before behind false true scroll h =
    unlock-Held (count_open (before ++ false ∷ behind)) scroll
      (subst (λ (n : ℕ). Held n scroll) (count-opened before behind) h)

unmount-Held :
    (before behind : List Bool) (locked : Bool) (scroll : Scroll)
    → Held (count_open (before ++ locked ∷ behind)) scroll
    → Held (count_open (before ++ behind)) (clean_up locked scroll)
unfolding clean_up
unmount-Held before behind false scroll h =
    let same : count_open (before ++ false ∷ behind) ≡ count_open (before ++ behind) =
      omega (arith, count-middle before behind false) in
    subst (λ (n : ℕ). Held n scroll) same h
unmount-Held before behind true scroll h =
    unlock-Held (count_open (before ++ behind)) scroll
      (subst (λ (n : ℕ). Held n scroll) (count-after before behind) h)

-- However menus are mounted, opened, closed and unmounted, and smooth scrolling is turned on and
-- off: the module counts the open menus, the document has the class exactly while one is open, and
-- a scroller is stopped exactly then.
pub scroll-Held : (site : Site) → Reached site → Held (count_open site.menus) site.scroll
unfolding sync
scroll-Held site opening = (refl, ground arith, tt)
scroll-Held site (mounts {site = old} r) = scroll-Held old r
scroll-Held site (toggles {site = old} before behind locked opens e r) =
    toggle-Held before behind opens locked old.scroll
      (subst (λ (menus : List Bool). Held (count_open menus) old.scroll) e (scroll-Held old r))
scroll-Held site (unmounts {site = old} before behind locked e r) =
    unmount-Held before behind locked old.scroll
      (subst (λ (menus : List Bool). Held (count_open menus) old.scroll) e (scroll-Held old r))
scroll-Held site (syncs {site = old} reduced r) =
    sync-Held old.scroll.scroller reduced (count_open old.menus) old.scroll (scroll-Held old r)
