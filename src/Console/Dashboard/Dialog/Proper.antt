-- ===== src/Console/Dashboard/Dialog/Proper.antt =====
-- What the dialog of connect-source-dialog.tsx asks to connect.
use solva.Prelude.{◌≡◌, refl, ◌⊎◌, inl, inr, Bool, true, false, List, [], ◌∷◌, arith}
use mathlib.Core.List.{Mem}
use solva.Prelude.Text.{Text, codes, is_truthy}
use solva.Console.Format.{attested, onchain}
use solva.Console.Dashboard.{SourceConfig}
use solva.Console.Dashboard.Dialog.{
  custodians, choose, choose_custodian, consent, wallet, Dialog, opened, reset, close, finish,
  on_open_change, set_step, pick_custodian, attested_config, wallet_config, wallet_disabled,
}

-- What a visitor does, step by step, and the end of an awaited connection, at any time.
pub data Reached : Dialog → Type 0 where
  opening : Reached opened
  opens : {dialog : Dialog} (next : Bool) → Reached dialog → Reached (on_open_change next dialog)
  to_custodians :
      {dialog : Dialog}
      → dialog.step ≡ choose
      → Reached dialog
      → Reached (set_step choose_custodian dialog)
  to_wallet :
      {dialog : Dialog} → dialog.step ≡ choose → Reached dialog → Reached (set_step wallet dialog)
  back_to_choice :
      {dialog : Dialog}
      → (dialog.step ≡ choose_custodian) ⊎ (dialog.step ≡ wallet)
      → Reached dialog
      → Reached (set_step choose dialog)
  back_to_custodians :
      {dialog : Dialog}
      → dialog.step ≡ consent
      → Reached dialog
      → Reached (set_step choose_custodian dialog)
  picks :
      {dialog : Dialog} (name : Text)
      → dialog.step ≡ choose_custodian
      → Mem name custodians
      → Reached dialog
      → Reached (pick_custodian name dialog)
  labels :
      {dialog : Dialog} (text : Text)
      → dialog.step ≡ wallet
      → Reached dialog
      → Reached (record dialog { wallet_label = text })
  addresses :
      {dialog : Dialog} (text : Text)
      → dialog.step ≡ wallet
      → Reached dialog
      → Reached (record dialog { wallet_address = text })
  authorizes :
      {dialog : Dialog}
      → dialog.step ≡ consent
      → dialog.busy ≡ false
      → Reached dialog
      → Reached (finish (attested_config dialog) dialog)
  connects :
      {dialog : Dialog}
      → dialog.step ≡ wallet
      → wallet_disabled dialog ≡ false
      → Reached dialog
      → Reached (finish (wallet_config dialog) dialog)
  ends : {dialog : Dialog} → Reached dialog → Reached (close dialog)

-- An account of a listed custodian under consent, or a wallet with a name and an address.
abbrev pub IsProper : SourceConfig → Type 0
IsProper config =
    ((config.type ≡ attested)
      × Mem config.label custodians
      × (config.settings ≡ codes "read-only balance consent"))
    ⊎ ((config.type ≡ onchain)
        × (is_truthy config.label ≡ true)
        × (is_truthy config.settings ≡ true))

abbrev pub All : List SourceConfig → Type 0
All [] = Unit {0}
All (config ∷ configs) = IsProper config × All configs

abbrev Inv : Dialog → Type 0
Inv dialog = (dialog.step ≡ consent → Mem dialog.custodian custodians) × All dialog.asked

wallet-IsProper :
    (dialog : Dialog) → wallet_disabled dialog ≡ false → IsProper (wallet_config dialog)
unfolding wallet_disabled wallet_config
wallet-IsProper dialog ready = inr (refl, ground arith, ground arith)

Reached-Inv : {dialog : Dialog} → Reached dialog → Inv dialog
unfolding opened on_open_change reset close set_step pick_custodian finish attested_config
Reached-Inv opening = (λ h. cc, tt)
Reached-Inv (opens true r) = Reached-Inv r
Reached-Inv (opens false r) = (λ h. cc, (Reached-Inv r).1)
Reached-Inv (to_custodians at r) = (λ h. cc, (Reached-Inv r).1)
Reached-Inv (to_wallet at r) = (λ h. cc, (Reached-Inv r).1)
Reached-Inv (back_to_choice at r) = (λ h. cc, (Reached-Inv r).1)
Reached-Inv (back_to_custodians at r) = (λ h. cc, (Reached-Inv r).1)
Reached-Inv (picks name at known r) = (λ h. known, (Reached-Inv r).1)
Reached-Inv (labels text at r) = Reached-Inv r
Reached-Inv (addresses text at r) = Reached-Inv r
Reached-Inv (authorizes at ready r) =
    ((Reached-Inv r).0, (inl (refl, (Reached-Inv r).0 at, refl), (Reached-Inv r).1))
Reached-Inv (connects {dialog} at ready r) =
    ((Reached-Inv r).0, (wallet-IsProper dialog ready, (Reached-Inv r).1))
Reached-Inv (ends r) = (λ h. cc, (Reached-Inv r).1)

-- Whatever was chosen, typed and gone back from, and whenever the connections asked for end:
-- each source that was asked for is an account of one of the listed custodians, under consent
-- to read balances, or a wallet whose name and address are not blank.
pub asked-IsProper : (dialog : Dialog) → Reached dialog → All dialog.asked
asked-IsProper dialog r = (Reached-Inv r).1
