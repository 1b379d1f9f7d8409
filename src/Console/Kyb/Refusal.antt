-- ===== src/Console/Kyb/Refusal.antt =====
-- What apps/web/src/app/api/kyb/route.ts refuses before a mail is sent.
use solva.Prelude.{
  ℕ, zero, suc, ◌≤◌, ◌<◌, ◌≡◌, ◌≢◌, refl, ap, ◌∙◌, Bool, true, false, not, ◌&&◌, [], ◌∷◌, ◌++◌,
  Option, none, some, ◌⊎◌, inl, inr, Bool-cases, arith, ◌==◌, ==_iff, take,
}
use solva.Prelude.Text.{Text, is_truthy, trim, text_eq_iff}
use solva.Prelude.Effect.{Eff}
use solva.Prelude.Payload.{Payload, unreadable, null_body, parsed}
use solva.Console.Kyb.{
  crashed, is_line_end, point_follows, host_follows, email_looks_valid, str, same_host,
  KybSubmission, Body, Request, kyb_received, kyb_notification, kyb_approved, Mail, Answer, status,
  support_email, same_origin, client_ip, submission_of, has_details, send_kyb_submitted,
  submit_details, submit_body, admit, post,
}
use mathlib.Core.Path.{fun_ext, subst}
use solva.Console.Kyb.Throttle.{Hits, rate_limited}

abbrev pub or_empty : Option Text → Text
or_empty none = []
or_empty (some text) = text

-- `text` is an address as the form asks for it: something, an @, something, a point, something.
pub HasForm : Text → Type 0
HasForm text =
    (before host after : Text) × (text ≡ before ++ b'@' ∷ (host ++ b'.' ∷ after))
    × (before ≢ [])
    × (host ≢ [])
    × (after ≢ [])

-- The body names an institution and a contact, not with spaces alone, and has such an address.
pub HasDetails : Payload Body → Type 0
HasDetails payload =
    (body : Body) × (payload ≡ parsed body)
    × (trim (or_empty body.legal_name) ≢ [])
    × (trim (or_empty body.contact_name) ≢ [])
    × HasForm (take 320 (trim (or_empty body.contact_email)))

-- The host of the page and that of the origin are there and the same.
pub IsOwn : (Text → Option Text) → Request → Type 0
IsOwn url_host request =
    (origin host : Text) × (request.origin ≡ some origin)
    × (request.host ≡ some host)
    × (host ≢ [])
    × (url_host origin ≡ some host)

-- What a request has to be for its mails to be sent.
pub Passed : (Text → Option Text) → ℕ → Request → Hits → Type 0
Passed url_host now request hits =
    IsOwn url_host request
    × ((rate_limited (client_ip request.cf_connecting_ip request.x_forwarded_for) now hits).0
        ≡ false)
    × HasDetails request.body

-- A refusal by a status of the four hundreds, or the crash at a body that is `null`.
pub IsRefused : {W : Type 0} → Payload Body → W → Answer → W → Type 0
IsRefused payload w answer v =
    (((400 ≤ status answer) × (status answer < 500)) ⊎ ((payload ≡ null_body) × (answer ≡ crashed)))
    × (v ≡ w)

filled : (text : Text) → is_truthy text ≡ true → text ≢ []
filled [] h e = cc
filled (c ∷ s) h e = cc

take-nothing : (n : ℕ) → ◌≡◌ {A = Text} (take n []) []
take-nothing zero = refl
take-nothing (suc n) = refl

take-empty : (n : ℕ) (text : Text) → text ≡ [] → take n text ≡ []
take-empty n text e = ap (take n) e ∙ take-nothing n

point_follows-HasForm :
    (s : Text)
    → point_follows s ≡ true
    → (host after : Text) × (s ≡ host ++ b'.' ∷ after) × (after ≢ [])
unfolding point_follows
point_follows-HasForm [] h = cc
point_follows-HasForm (c ∷ []) h = cc
point_follows-HasForm (c ∷ d ∷ s) h = elim (Bool-cases ((c == b'.') && not (is_line_end d))) [
  | inl here ↦
      let point : c ≡ b'.' = (==_iff c b'.').0 (ground arith) in
      ([], d ∷ s, ap (λ x. x ∷ d ∷ s) point, λ e. cc)
  | inr later ↦
      let (host, after, same, more) = point_follows-HasForm (d ∷ s) (ground arith) in
      (c ∷ host, after, ap (◌∷◌ c) same, more)
]

email_looks_valid-HasForm : (text : Text) → email_looks_valid text ≡ true → HasForm text
unfolding email_looks_valid host_follows HasForm
email_looks_valid-HasForm [] h = cc
email_looks_valid-HasForm (a ∷ []) h = cc
email_looks_valid-HasForm (a ∷ b ∷ s) h = elim (Bool-cases (email_looks_valid (b ∷ s))) [
  | inl later ↦
      let (before, host, after, same, x, y, z) = email_looks_valid-HasForm (b ∷ s) later in
      (a ∷ before, host, after, ap (◌∷◌ a) same, λ e. cc, y, z)
  | inr none_later ↦ at_sign s (ground arith) (ground arith)
]
  where
    at_sign : (s : Text) → b ≡ b'@' → host_follows s ≡ true → HasForm (a ∷ b ∷ s)
    at_sign [] e k = cc
    at_sign (c ∷ s) e k =
        let (host, after, same, more) = point_follows-HasForm s (ground arith) in
        (
          a ∷ [],
          c ∷ host,
          after,
          ap (◌∷◌ a) (ap (λ x. x ∷ c ∷ s) e ∙ ap (λ x. b'@' ∷ c ∷ x) same),
          λ e. cc,
          λ e. cc,
          more,
        )

str-or_empty : (value : Option Text) → str value ≡ trim (or_empty value)
unfolding str trim
str-or_empty none = refl
str-or_empty (some text) = refl

detail-filled :
    (n : ℕ) (value : Option Text)
    → is_truthy (take n (str value)) ≡ true
    → trim (or_empty value) ≢ []
detail-filled n value h e =
    filled (take n (str value)) h (take-empty n (str value) (str-or_empty value ∙ e))

has_details-HasDetails :
    (body : Body) → has_details (submission_of body) ≡ true → HasDetails (parsed body)
unfolding has_details submission_of HasDetails
has_details-HasDetails body h = (
  body,
  refl,
  detail-filled 200 body.legal_name (ground arith),
  detail-filled 200 body.contact_name (ground arith),
  subst (λ x. HasForm (take 320 x)) (str-or_empty body.contact_email)
      (email_looks_valid-HasForm (take 320 (str body.contact_email)) (ground arith)),
)

same_host-eq : (found : Option Text) (host : Text) → same_host found host ≡ true → found ≡ some host
unfolding same_host
same_host-eq none host h = cc
same_host-eq (some name) host h = ap some ((text_eq_iff name host).0 h)

same_origin-IsOwn :
    (url_host : Text → Option Text) (request : Request) (origin host : Option Text)
    → request.origin ≡ origin
    → request.host ≡ host
    → same_origin url_host origin host ≡ true
    → IsOwn url_host request
unfolding same_origin IsOwn
same_origin-IsOwn url_host request none host e k h = cc
same_origin-IsOwn url_host request (some origin) none e k h = cc
same_origin-IsOwn url_host request (some origin) (some host) e k h = (
  origin,
  host,
  e,
  k,
  filled host (ground arith),
  same_host-eq (url_host origin) host (ground arith),
)

module _ {W : Type 0} (send : Mail → Eff W Text (Unit {0})) where
  submit_body-HasDetails :
      (payload : Payload Body) (w : W)
      → HasDetails payload
        ⊎ IsRefused payload w (submit_body send payload w).0 (submit_body send payload w).1
  unfolding IsRefused submit_body submit_details status
  submit_body-HasDetails unreadable w = inr (inl (omega arith, omega arith), refl)
  submit_body-HasDetails null_body w = inr (inr (refl, refl), refl)
  submit_body-HasDetails (parsed body) w = elim (Bool-cases (has_details (submission_of body))) [
    | inl complete ↦ inl (has_details-HasDetails body complete)
    | inr lacking ↦ inr (rw lacking (inl (omega arith, omega arith), refl))
  ]

  admit-HasDetails :
      (request : Request) (w : W) (limited : Bool × Hits)
      → ((limited.0 ≡ false) × HasDetails request.body)
        ⊎ IsRefused request.body w (admit send request w limited).0 (admit send request w limited).2
  unfolding admit IsRefused status
  admit-HasDetails request w (true, hits) = inr (inl (omega arith, omega arith), refl)
  admit-HasDetails request w (false, hits) = elim (submit_body-HasDetails request.body w) [
    | inl filled_in ↦ inl (refl, filled_in)
    | inr refused ↦ inr refused
  ]

  -- A request either comes with an origin whose host is the page's own and from an address within
  -- its limit, and has a body with a name of the institution, a contact, neither of spaces alone,
  -- and a mail address of the form that is asked for; or nothing is sent, and it is refused by a
  -- status of the four hundreds, or its body is `null` and the handler throws.
  pub post-Passed-IsRefused :
      (url_host : Text → Option Text) (now : ℕ) (request : Request) (hits : Hits) (w : W)
      → Passed url_host now request hits
        ⊎ IsRefused request.body w
            (post send url_host now request hits w).0
            (post send url_host now request hits w).2
  unfolding Passed IsRefused post status
  post-Passed-IsRefused url_host now request hits w =
      let limited =
        rate_limited (client_ip request.cf_connecting_ip request.x_forwarded_for) now hits in
      elim (Bool-cases (same_origin url_host request.origin request.host)) [
        | inr away ↦ inr (rw away (inl (omega arith, omega arith), refl))
        | inl here ↦ elim (admit-HasDetails request w limited) [
          | inl (within, filled_in) ↦
              inl (same_origin-IsOwn url_host request _ _ refl refl here, within, filled_in)
          | inr refused ↦ inr (rw here refused)
        ]
      ]

module _ {W : Type 0} (send other : Mail → Eff W Text (Unit {0}))
    (same : (mail : Mail) (w : W) → mail.template ≢ kyb_approved → send mail w ≡ other mail w) where
  send_kyb_submitted-eq :
      (about : KybSubmission) (w : W)
      → send_kyb_submitted send about w ≡ send_kyb_submitted other about w
  unfolding send_kyb_submitted
  send_kyb_submitted-eq about w =
      let received : Mail = record {
        to = about.contact_email;
        reply_to = support_email;
        template = kyb_received;
        about = about;
      } in
      let notification : Mail = record {
        to = support_email;
        reply_to = about.contact_email;
        template = kyb_notification;
        about = about;
      } in
      let first : send received ≡ other received = fun_ext (λ v. same received v (λ e. cc)) in
      let second : send notification ≡ other notification =
        fun_ext (λ v. same notification v (λ e. cc)) in
      rw (first, second) refl

  submit_body-eq :
      (payload : Payload Body) (w : W) → submit_body send payload w ≡ submit_body other payload w
  unfolding submit_body submit_details
  submit_body-eq unreadable w = refl
  submit_body-eq null_body w = refl
  submit_body-eq (parsed body) w = rw (send_kyb_submitted-eq (submission_of body) w) refl

  admit-eq :
      (request : Request) (w : W) (limited : Bool × Hits)
      → admit send request w limited ≡ admit other request w limited
  unfolding admit
  admit-eq request w (true, hits) = refl
  admit-eq request w (false, hits) = rw (submit_body-eq request.body w) refl

  -- No request has an approval sent: two mail services that differ only in what they do with
  -- approvals are told apart by no answer, no counter and no state of the world.
  pub post-approves_nothing :
      (url_host : Text → Option Text) (now : ℕ) (request : Request) (hits : Hits) (w : W)
      → post send url_host now request hits w ≡ post other url_host now request hits w
  unfolding post
  post-approves_nothing url_host now request hits w =
      rw
        (admit-eq request w
          (rate_limited (client_ip request.cf_connecting_ip request.x_forwarded_for) now hits))
        refl
