-- ===== src/Prelude/Pending.antt =====
-- The oldest of several awaited answers comes first, and what was asked for last stands at the end.
use mathlib.Core.Path.{◌≡◌}
use mathlib.Core.Logic.{◌⊎◌, inl, inr}
use mathlib.Core.List.{List, [], ◌∷◌, ◌++◌}

module _ {A : Type 0} where
  abbrev pub Ends : A → List A → Type 0
  Ends newest awaited = (before : List A) × (awaited ≡ before ++ newest ∷ [])

  -- The newest is still awaited behind the first, or it was the first and the only one.
  pub Ends-tail :
      (newest first : A) (later : List A)
      → Ends newest (first ∷ later)
      → Ends newest later ⊎ ((later ≡ []) × (first ≡ newest))
  Ends-tail newest first later ([], e) = inr (cc, cc)
  Ends-tail newest first later (x ∷ before, e) = inl (before, cc)
