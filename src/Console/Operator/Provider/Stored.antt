-- ===== src/Console/Operator/Provider/Stored.antt =====
-- What a storage that works keeps of the institutions: apps/web/src/lib/session/store.ts.
use solva.Prelude.{◌≡◌, refl, true, false, Option, none, some, inl, inr, Bool-cases, ◌++◌}
use mathlib.Core.Path.{subst}
use solva.Prelude.Text.{Text, text_eq, is_truthy}
use solva.Prelude.Effect.{Result, ok, err, or_else}
use solva.Console.Operator.{
  institution_type_name, InstitutionType, anchor, custodial_app, exchange, custodian, Storage,
  active_wallet_key, institution_prefix, is_institution_type, known_type, checked, read_institution,
  load_institution, save_institution, save_active_wallet, clear_active_wallet,
}
use solva.Console.Operator.Provider.{Institution}

-- A storage that is not blocked: what was set under a key is found there, other keys stay as they
-- are, and a record that was written is read back.
pub record Works {W : Type 0} (storage : Storage W Institution) (content : W → Text → Option Text)
    : Type 0 where
  pub got : (key : Text) (w : W) → storage.get_item key w ≡ (ok (content w key), w)
  pub set : (key value : Text) (w : W) → content (storage.set_item key value w).1 key ≡ some value
  pub set_apart :
      (key value other : Text) (w : W)
      → text_eq key other ≡ false
      → content (storage.set_item key value w).1 other ≡ content w other
  pub removed_apart :
      (key other : Text) (w : W)
      → text_eq key other ≡ false
      → content (storage.remove_item key w).1 other ≡ content w other
  pub told : (i : Institution) → storage.parse (storage.stringify i) ≡ ok i
  pub filled : (i : Institution) → is_truthy (storage.stringify i) ≡ true
  pub typed : (i : Institution) → storage.type_of i ≡ some i.type

or_else-state :
    {A W : Type 0} (answer : Result Text A × W) (a : A)
    → (or_else {F = Text} answer (λ error v. (ok a, v))).1 ≡ answer.1
or_else-state (ok done, w) a = refl
or_else-state (err error, w) a = refl

settled : {A : Type 0} → Result Text (Option A) → Option A
settled (ok found) = found
settled (err error) = none

or_else-settled :
    {A W : Type 0} (answer : Result Text (Option A)) (w : W)
    → or_else {F = Text} (answer, w) (λ error v. (ok none, v)) ≡ (ok (settled answer), w)
unfolding settled
or_else-settled (ok found) w = refl
or_else-settled (err error) w = refl

some_injective : {A : Type 0} {a b : A} → some a ≡ some b → a ≡ b
some_injective h = cc

pub type_name-known :
    (type : InstitutionType) → is_institution_type (institution_type_name type) ≡ true
unfolding is_institution_type text_eq
type_name-known anchor = refl
type_name-known custodial_app = refl
type_name-known exchange = refl
type_name-known custodian = refl

module _ {W : Type 0} (storage : Storage W Institution) (content : W → Text → Option Text) where
  -- The record of a wallet, where there is one.
  pub found : Text → W → Option Institution
  unfolding settled
  found wallet w = settled (read_institution storage (content w (institution_prefix ++ wallet)))

module _ {W : Type 0} (storage : Storage W Institution) (content : W → Text → Option Text)
    (works : Works storage content) where
  pub load-found :
      (wallet : Text) (w : W)
      → load_institution storage {E = Text} wallet w ≡ (ok (found storage content wallet w), w)
  unfolding load_institution found
  load-found wallet w = rw (works.got (institution_prefix ++ wallet) w) (or_else-settled _ w)

  pub saved-found :
      (wallet : Text) (i : Institution) (w : W)
      → is_institution_type i.type ≡ true
      → found storage content wallet (save_institution storage {E = Text} wallet i w).1 ≡ some i
  unfolding found save_institution read_institution checked known_type settled
  saved-found wallet i w known =
      let key = institution_prefix ++ wallet in
      let state = or_else-state (storage.set_item key (storage.stringify i) w) tt in
      rw
        (
          state,
          works.set key (storage.stringify i) w,
          works.filled i,
          works.told i,
          works.typed i,
          known,
        )
        refl

  pub active-found :
      (wallet other : Text) (w : W)
      → found storage content wallet (save_active_wallet storage {E = Text} other w).1
        ≡ found storage content wallet w
  unfolding found save_active_wallet text_eq
  active-found wallet other w =
      let state = or_else-state (storage.set_item active_wallet_key other w) tt in
      rw (state, works.set_apart active_wallet_key other (institution_prefix ++ wallet) w refl) refl

  pub cleared-found :
      (wallet : Text) (w : W)
      → found storage content wallet (clear_active_wallet storage {E = Text} w).1
        ≡ found storage content wallet w
  unfolding found clear_active_wallet text_eq
  cleared-found wallet w =
      let state = or_else-state (storage.remove_item active_wallet_key w) tt in
      rw (state, works.removed_apart active_wallet_key (institution_prefix ++ wallet) w refl) refl

  checked-known :
      (answer : Result Text Institution) (i : Institution)
      → settled (checked storage answer) ≡ some i
      → is_institution_type i.type ≡ true
  unfolding checked known_type settled
  checked-known (err error) i h = cc
  checked-known (ok j) i h = elim (Bool-cases (is_institution_type j.type)) [
    | inl known ↦
        let same : j ≡ i = some_injective (simp (works.typed j, known) at h) in
        subst (λ x. is_institution_type x.type ≡ true) same known
    | inr odd ↦ let none_there = simp (works.typed j, odd) at h in cc
  ]

  read-known :
      (raw : Option Text) (i : Institution)
      → settled (read_institution storage raw) ≡ some i
      → is_institution_type i.type ≡ true
  unfolding read_institution settled
  read-known none i h = cc
  read-known (some raw) i h = elim (Bool-cases (is_truthy raw)) [
    | inl there ↦ checked-known (storage.parse raw) i (simp there at h)
    | inr empty ↦ let none_there = simp empty at h in cc
  ]

  pub found-known :
      (wallet : Text) (w : W) (i : Institution)
      → found storage content wallet w ≡ some i
      → is_institution_type i.type ≡ true
  unfolding found
  found-known wallet w i h = read-known _ i h
