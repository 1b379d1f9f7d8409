-- ===== src/Website/Contact/Waitlist/Once.antt =====
-- An address joins the waitlist once: apps/website/src/features/contact/server/waitlist.ts.
use solva.Prelude.{
  ◌≡◌, ◌≢◌, refl, ap, sym, Bool, false, List, [], ◌∷◌, Option, none, some, inl, inr, Bool-cases,
}
use mathlib.Core.Path.{subst}
use solva.Prelude.Text.{Text, codes, text_eq}
use solva.Prelude.Effect.{Result, ok, err, and_then}
use solva.Website.Contact.{FieldValues, sent, FormData, OutgoingMessage}
use solva.Website.Contact.Schema.{
  WaitlistField, WaitlistSubmission, Validation, valid, rejected, is_bot,
}
use solva.Website.Contact.Message.{waitlist_confirmation}
use solva.Website.Contact.Mailer.{MailEnv, send, delivery_of}
use solva.Website.Contact.Waitlist.{
  Listing, added, listed, unlisted, Lookup, contact, lookup_error, nothing, Resend, caught,
  listing_of, create, add_unlisted, add_to_waitlist, confirm, configured, validated,
  submit_waitlist,
}

-- An answer that does not say that the address is missing.
unfoldable pub IsFound : Lookup → Type 0
IsFound contact = Unit
IsFound nothing = ⊥
IsFound (lookup_error name) = text_eq name (codes "not_found") ≡ false

-- What the mail service promises of the addresses that are on its list.
pub record ListLaws {W : Type 0} (resend : Resend W) (Listed : W → Text → Type 0) : Type 0 where
  pub found :
      (api_key address : Text) (w v : W) (answer : Lookup)
      → Listed w address
      → resend.contacts_get api_key address w ≡ (ok answer, v)
      → IsFound answer
  pub created :
      (api_key segment_id : Text) (submission : WaitlistSubmission) (w v : W)
      → resend.contacts_create api_key segment_id submission w ≡ (ok none, v)
      → Listed v submission.email
  pub kept :
      (api_key address : Text) (message : OutgoingMessage) (w : W)
      → Listed w address
      → Listed (resend.emails_send api_key message w).1 address
  pub kept_by_get :
      (api_key address other : Text) (w : W)
      → Listed w address
      → Listed (resend.contacts_get api_key other w).1 address
  pub kept_by_create :
      (api_key segment_id address : Text) (submission : WaitlistSubmission) (w : W)
      → Listed w address
      → Listed (resend.contacts_create api_key segment_id submission w).1 address

delivery_of-state :
    {W : Type 0} (answer : Result Text (Option Text) × W) → (delivery_of answer).1 ≡ answer.1
unfolding delivery_of
delivery_of-state (ok none, w) = refl
delivery_of-state (ok (some error), w) = refl
delivery_of-state (err cause, w) = refl

with_state : {A W : Type 0} (run : A × W) (a : A) → run.0 ≡ a → run ≡ (a, run.1)
with_state run a h = ap (λ x. (x, run.1)) h

module _ {W : Type 0} (resend : Resend W) (Listed : W → Text → Type 0)
    (laws : ListLaws resend Listed) where
  caught-unadded :
      (api_key segment_id : Text) (submission : WaitlistSubmission)
      (answer : Result Text Lookup × W)
      → ((found : Lookup) → answer.0 ≡ ok found → IsFound found)
      → (caught (and_then answer (add_unlisted resend api_key segment_id submission))).0 ≢ added
  unfolding caught add_unlisted IsFound
  caught-unadded api_key segment_id submission (err cause, u) h same = cc
  caught-unadded api_key segment_id submission (ok contact, u) h same = cc
  caught-unadded api_key segment_id submission (ok nothing, u) h same = absurd (h nothing refl)
  caught-unadded api_key segment_id submission (ok (lookup_error name), u) h same =
      let not_missing = h (lookup_error name) refl in let there = simp not_missing at same in cc

  created-Listed :
      (submission : WaitlistSubmission) (answer : Result Text (Option Text) × W) (u : W)
      → ((v : W) → answer ≡ (ok none, v) → Listed v submission.email)
      → caught (and_then answer (λ error w. (ok (listing_of error), w))) ≡ (added, u)
      → Listed u submission.email
  unfolding caught listing_of
  created-Listed submission (ok none, v) u h same =
      subst (λ x. Listed x submission.email) (ap (λ p. p.1) same) (h v refl)
  created-Listed submission (ok (some error), v) u h same = cc
  created-Listed submission (err cause, v) u h same = cc

  caught-Listed :
      (api_key segment_id : Text) (submission : WaitlistSubmission)
      (answer : Result Text Lookup × W) (u : W)
      → caught (and_then answer (add_unlisted resend api_key segment_id submission)) ≡ (added, u)
      → Listed u submission.email
  unfolding caught add_unlisted create
  caught-Listed api_key segment_id submission (err cause, v) u same = cc
  caught-Listed api_key segment_id submission (ok contact, v) u same = cc
  caught-Listed api_key segment_id submission (ok nothing, v) u same =
      created-Listed submission _ u (λ x. laws.created api_key segment_id submission v x) same
  caught-Listed api_key segment_id submission (ok (lookup_error name), v) u same =
      elim (Bool-cases (text_eq name (codes "not_found"))) [
        | inl missing ↦
            created-Listed submission _ u (λ x. laws.created api_key segment_id submission v x)
              (simp missing at same)
        | inr other_error ↦ let there = simp other_error at same in cc
      ]

  send-Listed :
      (api_key address : Text) (message : OutgoingMessage) (w : W)
      → Listed w address
      → Listed (send resend.emails_send api_key message w).1 address
  unfolding send
  send-Listed api_key address message w h =
      subst (λ x. Listed x address) (sym (delivery_of-state (resend.emails_send api_key message w)))
        (laws.kept api_key address message w h)

  confirm-sent :
      (api_key : Text) (submission : WaitlistSubmission) (values : FieldValues WaitlistField)
      (joined : Listing × W) (address : Text) (v : W)
      → confirm resend api_key submission values joined ≡ (sent address, v)
      → (joined ≡ (added, joined.1))
        × (submission.email ≡ address)
        × ((send resend.emails_send api_key (waitlist_confirmation submission) joined.1).1 ≡ v)
  unfolding confirm
  confirm-sent api_key submission values (added, w) address v h = (refl, cc, ap (λ p. p.1) h)
  confirm-sent api_key submission values (listed, w) address v h = cc
  confirm-sent api_key submission values (unlisted, w) address v h = cc

  configured-Listed :
      (submission : WaitlistSubmission) (values : FieldValues WaitlistField)
      (api_key segment_id : Option Text) (w v : W) (address : Text)
      → configured resend submission values api_key segment_id w ≡ (sent address, v)
      → Listed v address
  unfolding configured add_to_waitlist
  configured-Listed submission values none segment_id w v address h = cc
  configured-Listed submission values (some api_key) none w v address h = cc
  configured-Listed submission values (some api_key) (some segment_id) w v address h =
      let (joined, same, after) = confirm-sent api_key submission values _ address v h in
      let on_list =
        caught-Listed api_key segment_id submission (resend.contacts_get api_key submission.email w)
          _ joined in
      subst (Listed v) same (
        subst (λ x. Listed x submission.email) after
          (send-Listed api_key submission.email (waitlist_confirmation submission) _ on_list))

  configured-unsent :
      (submission : WaitlistSubmission) (values : FieldValues WaitlistField)
      (api_key segment_id : Option Text) (w : W) (address : Text)
      → Listed w address
      → (configured resend submission values api_key segment_id w).0 ≢ sent address
  unfolding configured add_to_waitlist
  configured-unsent submission values none segment_id w address on_list h = cc
  configured-unsent submission values (some api_key) none w address on_list h = cc
  configured-unsent submission values (some api_key) (some segment_id) w address on_list h =
      let answer = resend.contacts_get api_key submission.email w in
      let (joined, same, after) =
        confirm-sent api_key submission values
          (caught (and_then answer (add_unlisted resend api_key segment_id submission))) address _
          (with_state _ _ h) in
      caught-unadded api_key segment_id submission answer
        (λ found e.
          laws.found api_key submission.email w answer.1 found (subst (Listed w) (sym same) on_list)
            (with_state _ _ e))
        (ap (λ p. p.0) joined)

  validated-Listed :
      (env : MailEnv) (form_data : FormData) (values : FieldValues WaitlistField)
      (validation : Validation WaitlistField WaitlistSubmission) (address : Text) (w v : W)
      → is_bot form_data ≡ false
      → validated resend env form_data values validation w ≡ (sent address, v)
      → Listed v address
  unfolding validated
  validated-Listed env form_data values (rejected errors kept) address w v human h = cc
  validated-Listed env form_data values (valid submission) address w v human h =
      configured-Listed submission values _ _ w v address (simp human at h)

  validated-unsent :
      (env : MailEnv) (form_data : FormData) (values : FieldValues WaitlistField)
      (validation : Validation WaitlistField WaitlistSubmission) (address : Text) (w : W)
      → is_bot form_data ≡ false
      → Listed w address
      → (validated resend env form_data values validation w).0 ≢ sent address
  unfolding validated
  validated-unsent env form_data values (rejected errors kept) address w human on_list h = cc
  validated-unsent env form_data values (valid submission) address w human on_list h =
      configured-unsent submission values _ _ w address on_list (simp human at h)

  -- An address that is on the list stays there.
  created-kept :
      (address : Text) (answer : Result Text (Option Text) × W)
      → Listed answer.1 address
      → Listed (caught (and_then answer (λ error w. (ok (listing_of error), w)))).1 address
  unfolding caught listing_of
  created-kept address (ok none, v) h = h
  created-kept address (ok (some error), v) h = h
  created-kept address (err cause, v) h = h

  looked_up-kept :
      (api_key segment_id address : Text) (submission : WaitlistSubmission)
      (answer : Result Text Lookup × W)
      → Listed answer.1 address
      → Listed
          (caught (and_then answer (add_unlisted resend api_key segment_id submission))).1
          address
  unfolding caught add_unlisted create
  looked_up-kept api_key segment_id address submission (err cause, v) h = h
  looked_up-kept api_key segment_id address submission (ok contact, v) h = h
  looked_up-kept api_key segment_id address submission (ok nothing, v) h =
      created-kept address _ (laws.kept_by_create api_key segment_id address submission v h)
  looked_up-kept api_key segment_id address submission (ok (lookup_error name), v) h =
      elim (Bool-cases (text_eq name (codes "not_found"))) [
        | inl missing ↦
            rw missing (
              created-kept address _
                (laws.kept_by_create api_key segment_id address submission v h))
        | inr other_error ↦ rw other_error h
      ]

  confirm-kept :
      (api_key address : Text) (submission : WaitlistSubmission)
      (values : FieldValues WaitlistField) (joined : Listing × W)
      → Listed joined.1 address
      → Listed (confirm resend api_key submission values joined).1 address
  unfolding confirm
  confirm-kept api_key address submission values (listed, w) h = h
  confirm-kept api_key address submission values (unlisted, w) h = h
  confirm-kept api_key address submission values (added, w) h =
      send-Listed api_key address (waitlist_confirmation submission) w h

  configured-kept :
      (address : Text) (submission : WaitlistSubmission) (values : FieldValues WaitlistField)
      (api_key segment_id : Option Text) (w : W)
      → Listed w address
      → Listed (configured resend submission values api_key segment_id w).1 address
  unfolding configured add_to_waitlist
  configured-kept address submission values none segment_id w h = h
  configured-kept address submission values (some api_key) none w h = h
  configured-kept address submission values (some api_key) (some segment_id) w h =
      confirm-kept api_key address submission values _ (
        looked_up-kept api_key segment_id address submission _
          (laws.kept_by_get api_key address submission.email w h))

  validated-kept :
      (address : Text) (env : MailEnv) (form_data : FormData) (values : FieldValues WaitlistField)
      (validation : Validation WaitlistField WaitlistSubmission) (w : W)
      → Listed w address
      → Listed (validated resend env form_data values validation w).1 address
  unfolding validated
  validated-kept address env form_data values (rejected errors kept) w h = h
  validated-kept address env form_data values (valid submission) w h =
      elim (Bool-cases (is_bot form_data)) [
        | inl bot ↦ rw bot h
        | inr human ↦ rw human (configured-kept address submission values _ _ w h)
      ]

  -- The state behind a number of submissions, one after the other.
  abbrev pub after_all : (Text → Bool) → MailEnv → List FormData → W → W
  after_all is_email env [] w = w
  after_all is_email env (form ∷ forms) w =
      after_all is_email env forms (submit_waitlist resend is_email env form w).1

  after_all-kept :
      (is_email : Text → Bool) (env : MailEnv) (forms : List FormData) (address : Text) (w : W)
      → Listed w address
      → Listed (after_all is_email env forms w) address
  unfolding submit_waitlist
  after_all-kept is_email env [] address w h = h
  after_all-kept is_email env (form ∷ forms) address w h =
      after_all-kept is_email env forms address (submit_waitlist resend is_email env form w).1
        (validated-kept address env form _ _ w h)

  -- Where the service finds the addresses on its list, puts a created one there, and keeps those
  -- that are there whatever is looked up, created or sent: behind a join that was answered as sent
  -- to an address, and behind any number of further submissions, whatever they are, no form of a
  -- visitor who is no bot is answered as sent to that address.
  pub submit_waitlist-once :
      (is_email : Text → Bool) (env : MailEnv) (first : FormData) (between : List FormData)
      (later : FormData) (address : Text) (w v : W)
      → is_bot first ≡ false
      → is_bot later ≡ false
      → submit_waitlist resend is_email env first w ≡ (sent address, v)
      → (submit_waitlist resend is_email env later (after_all is_email env between v)).0
        ≢ sent address
  unfolding submit_waitlist
  submit_waitlist-once is_email env first between later address w v human also_human h =
      validated-unsent env later _ _ address _ also_human (
        after_all-kept is_email env between address v
          (validated-Listed env first _ _ address w v human h))
