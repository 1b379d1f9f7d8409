-- ===== src/Console/Operator/Provider/Returning.antt =====
-- What a returning operator finds: apps/web/src/lib/session/provider.tsx and store.ts.
use solva.Prelude.{ℕ, ◌≡◌, refl, sym, ◌∙◌, true, Option, none, some, ◌⊎◌, inl, inr, Bool-cases}
use mathlib.Core.Path.{subst}
use solva.Prelude.Text.{Text, is_truthy}
use solva.Prelude.Effect.{Result, ok, err}
use solva.Console.Auth.{SmartWalletSession, short_address}
use solva.Console.Operator.{
  anchor, Storage, is_institution_type, clear_active_wallet, load_active_wallet,
}
use solva.Console.Operator.Provider.Stored.{
  Works, type_name-known, found, load-found, saved-found, active-found, cleared-found, found-known,
}
use solva.Console.Operator.Provider.{
  not_started, approved, KybInput, Institution, OperatorSession, Provided, fresh_institution,
  build_session, or_fresh, resumed, mount, enter, stored, submitted, submit_in, submit_kyb,
  approve_in, approve_kyb, leave, Step, mounts, enters, submits, approves, leaves, Reached, opened,
  next,
}

module _ {W : Type 0} (storage : Storage W Institution) (content : W → Text → Option Text)
    (works : Works storage content) where
  -- A session's institution is the one on record, or there is none and it has not been submitted.
  HasRecord : OperatorSession → W → Type 0
  HasRecord session w =
      (is_institution_type session.institution.type ≡ true)
      × ((found storage content session.wallet_address w ≡ some session.institution)
          ⊎ ((found storage content session.wallet_address w ≡ none)
              × (session.institution.kyb_status ≡ not_started)))

  KeptIn : Option OperatorSession → W → Type 0
  KeptIn none w = Unit
  KeptIn (some session) w = HasRecord session w

  or_fresh-HasRecord :
      (wallet label stamp : Text) (w : W) (record_found : Option Institution)
      → found storage content wallet w ≡ record_found
      → HasRecord (build_session wallet label (or_fresh stamp (ok record_found))) w
  unfolding HasRecord build_session fresh_institution
  or_fresh-HasRecord wallet label stamp w none h = (type_name-known anchor, inr (h, refl))
  or_fresh-HasRecord wallet label stamp w (some i) h =
      (found-known storage content works wallet w i h, inl h)

  resumed-KeptIn :
      (stamp : Text) (answer : Result Text (Option Text) × W)
      → KeptIn (resumed storage stamp answer).session (resumed storage stamp answer).world
  unfolding KeptIn resumed
  resumed-KeptIn stamp (ok none, w) = tt
  resumed-KeptIn stamp (err error, w) = tt
  resumed-KeptIn stamp (ok (some wallet), w) = elim (Bool-cases (is_truthy wallet)) [
    | inl there ↦
        rw (there, load-found storage content works wallet w)
          (or_fresh-HasRecord wallet (short_address wallet) stamp w (found storage content wallet w)
            refl)
    | inr empty ↦ rw empty tt
  ]

  enter-KeptIn :
      (stamp : Text) (auth : SmartWalletSession) (s : Provided W)
      → KeptIn (enter storage stamp auth s).session (enter storage stamp auth s).world
  unfolding KeptIn enter HasRecord build_session
  enter-KeptIn stamp auth s =
      let wallet = auth.contract_address in
      let i = or_fresh stamp (ok (found storage content wallet s.world)) in
      let known =
        (or_fresh-HasRecord wallet auth.label stamp s.world (found storage content wallet s.world)
          refl).0 in
      rw (load-found storage content works wallet s.world) (
        known,
        inl (
            active-found storage content works wallet wallet _
            ∙ saved-found storage content works wallet i s.world known),
      )

  stored-KeptIn :
      (session : OperatorSession) (i : Institution) (s : Provided W)
      → is_institution_type i.type ≡ true
      → KeptIn (stored storage session i s).session (stored storage session i s).world
  unfolding KeptIn stored HasRecord
  stored-KeptIn session i s known =
      (known, inl (saved-found storage content works session.wallet_address i s.world known))

  submit_in-KeptIn :
      (input : KybInput) (now : ℕ) (session : Option OperatorSession) (s : Provided W)
      → KeptIn s.session s.world
      → KeptIn
          (submit_in storage input now session s).session
          (submit_in storage input now session s).world
  unfolding submit_in
  submit_in-KeptIn input now none s h = h
  submit_in-KeptIn input now (some session) s h =
      stored-KeptIn session (submitted input now session.institution) s (type_name-known input.type)

  approve_in-KeptIn :
      (session : Option OperatorSession) (s : Provided W)
      → KeptIn session s.world
      → KeptIn s.session s.world
      → KeptIn (approve_in storage session s).session (approve_in storage session s).world
  unfolding approve_in KeptIn HasRecord
  approve_in-KeptIn none s h k = k
  approve_in-KeptIn (some session) s h k =
      stored-KeptIn session (record session.institution { kyb_status = approved }) s h.0

  Step-KeptIn :
      {s t : Provided W} → Step storage s t → KeptIn s.session s.world → KeptIn t.session t.world
  unfolding mount submit_kyb approve_kyb leave KeptIn
  Step-KeptIn (mounts stamp s) h =
      resumed-KeptIn stamp (load_active_wallet storage {E = Text} s.world)
  Step-KeptIn (enters stamp auth s) h = enter-KeptIn stamp auth s
  Step-KeptIn (submits input now s) h = submit_in-KeptIn input now s.session s h
  Step-KeptIn (approves s) h = approve_in-KeptIn s.session s h h
  Step-KeptIn (leaves s) h = tt

  Reached-KeptIn : {s : Provided W} → Reached storage s → KeptIn s.session s.world
  unfolding mount
  Reached-KeptIn (opened stamp w) = resumed-KeptIn stamp (load_active_wallet storage {E = Text} w)
  Reached-KeptIn (next before step) = Step-KeptIn step (Reached-KeptIn before)

  found_status :
      (stamp : Text) (session : OperatorSession) (w : W)
      → HasRecord session w
      → (or_fresh stamp (ok (found storage content session.wallet_address w))).kyb_status
        ≡ session.institution.kyb_status
  unfolding HasRecord fresh_institution
  found_status stamp session w (known, inl there) = rw there refl
  found_status stamp session w (known, inr (missing, unsent)) = rw missing (sym unsent)

  -- Whatever was done on the pages, with a storage that works: who signs out and in again with the
  -- same wallet has the review's status as before, an approval included.
  pub leave-enter_status :
      (s : Provided W) (session : OperatorSession) (stamp : Text) (auth : SmartWalletSession)
      → Reached storage s
      → s.session ≡ some session
      → auth.contract_address ≡ session.wallet_address
      → (again : OperatorSession) × ((enter storage stamp auth (leave storage s)).session
          ≡ some again)
        × (again.wallet_address ≡ session.wallet_address)
        × (again.institution.kyb_status ≡ session.institution.kyb_status)
  unfolding KeptIn HasRecord enter leave build_session
  leave-enter_status s session stamp auth reached signed same =
      let kept = subst (λ x. KeptIn x s.world) signed (Reached-KeptIn reached) in
      let status = found_status stamp session s.world kept in
      let cleared = (clear_active_wallet storage {E = Text} s.world).1 in
      (
        _,
        refl,
        same,
        rw
            (
              same,
              load-found storage content works session.wallet_address cleared,
              cleared-found storage content works session.wallet_address s.world,
            )
            status,
      )
