-- ===== src/Console/Kyb.antt =====
-- The submission of an institution's details for review: apps/web/src/app/api/kyb/route.ts, and
-- lib/email/send.ts, which it calls. The URL parser, the JSON parser, the clock and the mail
-- service are parameters; a mail is told by its template and the data that go into it.
pub mod Throttle
pub mod Refusal
mod Examples
use solva.Prelude.{
  ℕ, ◌+◌, ◌-◌, Bool, true, false, ◌&&◌, ◌||◌, not, List, [], ◌∷◌, Option, none, some, ltb, ◌==◌,
  if◌then◌else◌, take,
}
use solva.Prelude.Text.{Text, codes, text_eq, is_truthy, trim}
use solva.Prelude.Effect.{Result, ok, err, Eff, ret, throw, ◌>>=◌, ◌>>◌, catching}
use solva.Prelude.Payload.{Payload, unreadable, null_body, parsed}
use Throttle.{Hits, rate_limited}

-- The fields of `KybSubmission`.
pub record KybSubmission : Type 0 where
  pub legal_name : Text
  pub contact_name : Text
  pub contact_email : Text
  pub type : Text
  pub institution : Text
  pub jurisdiction : Text
  pub registration_number : Text

-- The body of a request; a field that is missing or no string is none, and so are all of them for a
-- number, a text or a truth value.
pub record Body : Type 0 where
  pub legal_name : Option Text
  pub contact_name : Option Text
  pub contact_email : Option Text
  pub type : Option Text
  pub institution : Option Text
  pub jurisdiction : Option Text
  pub registration_number : Option Text

pub record Request : Type 0 where
  pub origin : Option Text
  pub host : Option Text
  pub cf_connecting_ip : Option Text
  pub x_forwarded_for : Option Text
  pub body : Payload Body

pub data Template : Type 0 where
  kyb_received kyb_notification kyb_approved : Template

pub record Mail : Type 0 where
  pub to : Text
  pub reply_to : Text
  pub template : Template
  pub about : KybSubmission

-- The answers of the handler, and the one that the server gives where the handler throws.
pub data Answer : Type 0 where
  submitted forbidden too_many_requests invalid_request missing_details not_sent crashed : Answer

unfoldable pub status : Answer → ℕ
status submitted = 200
status forbidden = 403
status too_many_requests = 429
status invalid_request = 400
status missing_details = 400
status not_sent = 500
status crashed = 500

-- What `.` in a regular expression does not match.
abbrev is_line_end : ℕ → Bool
is_line_end c = c == 10 || c == 13 || c == 0x2028 || c == 0x2029

-- Behind the `@` and one more unit: a point, with a unit behind it, on the same line.
unfoldable pub point_follows : Text → Bool
point_follows [] = false
point_follows (c ∷ []) = false
point_follows (c ∷ d ∷ s) =
    let further = point_follows (d ∷ s) in
    (c == b'.' && not (is_line_end d)) || (not (is_line_end c) && further)

unfoldable pub host_follows : Text → Bool
unfolding point_follows
host_follows [] = false
host_follows (c ∷ s) = not (is_line_end c) && point_follows s

-- `/.+@.+\..+/`.
unfoldable pub email_looks_valid : Text → Bool
unfolding host_follows
email_looks_valid [] = false
email_looks_valid (a ∷ []) = false
email_looks_valid (a ∷ b ∷ s) =
    let later = email_looks_valid (b ∷ s) in
    (not (is_line_end a) && b == b'@' && host_follows s) || later

unfoldable pub str : Option Text → Text
str none = []
str (some value) = trim value

-- `new URL(origin).host`, or none where the origin is no URL.
same_host : Option Text → Text → Bool
same_host none host = false
same_host (some found) host = text_eq found host

unfoldable pub same_origin : (Text → Option Text) → Option Text → Option Text → Bool
unfolding same_host
same_origin url_host (some origin) (some host) =
    is_truthy origin && is_truthy host && same_host (url_host origin) host
same_origin url_host _ _ = false

-- Up to the first comma.
unfoldable pub before_comma : Text → Text
before_comma [] = []
before_comma (c ∷ s) = if c == b',' then [] else c ∷ before_comma s

abbrev or_unknown : Text → Text
or_unknown [] = codes "unknown"
or_unknown (c ∷ s) = c ∷ s

forwarded_ip : Option Text → Text
unfolding before_comma
forwarded_ip none = codes "unknown"
forwarded_ip (some addresses) = or_unknown (trim (before_comma addresses))

unfoldable pub client_ip : Option Text → Option Text → Text
unfolding forwarded_ip
client_ip none forwarded = forwarded_ip forwarded
client_ip (some []) forwarded = forwarded_ip forwarded
client_ip (some (c ∷ ip)) forwarded = c ∷ ip

unfoldable pub submission_of : Body → KybSubmission
unfolding str
submission_of body = record {
  legal_name = take 200 (str body.legal_name);
  contact_name = take 200 (str body.contact_name);
  contact_email = take 320 (str body.contact_email);
  type = take 100 (str body.type);
  institution = take 100 (str body.institution);
  jurisdiction = take 120 (str body.jurisdiction);
  registration_number = take 120 (str body.registration_number);
}

unfoldable pub has_details : KybSubmission → Bool
unfolding email_looks_valid
has_details data_of =
    is_truthy data_of.legal_name
    && is_truthy data_of.contact_name
    && email_looks_valid data_of.contact_email

abbrev pub support_email : Text
support_email = codes "support@joinsolva.xyz"

answer_of : {W : Type 0} → Result Text (Unit {0}) × W → Answer × W
answer_of (ok done, w) = (submitted, w)
answer_of (err error, w) = (not_sent, w)

-- The mail service: the sending of one mail, which throws where it is refused or no key is set.
module _ {W : Type 0} (send : Mail → Eff W Text (Unit {0})) where
  unfoldable pub send_kyb_submitted : KybSubmission → Eff W Text (Unit {0})
  send_kyb_submitted about = do
    send (record {
      to = about.contact_email;
      reply_to = support_email;
      template = kyb_received;
      about = about;
    })
    catching
        (send (record {
          to = support_email;
          reply_to = about.contact_email;
          template = kyb_notification;
          about = about;
        }))
        (λ error. ret tt)

  unfoldable pub send_kyb_approved : KybSubmission → Eff W Text (Unit {0})
  send_kyb_approved about = send (record {
    to = about.contact_email;
    reply_to = support_email;
    template = kyb_approved;
    about = about;
  })

  unfoldable pub submit_details : KybSubmission → W → Answer × W
  unfolding send_kyb_submitted answer_of
  submit_details about w =
      if has_details about then answer_of (send_kyb_submitted about w) else (missing_details, w)

  -- A field of `null` is read outside any `try`.
  unfoldable pub submit_body : Payload Body → W → Answer × W
  unfolding submit_details
  submit_body unreadable w = (invalid_request, w)
  submit_body null_body w = (crashed, w)
  submit_body (parsed body) w = submit_details (submission_of body) w

  -- `POST`: the answer, the throttle's table and the world.
  admit : Request → W → Bool × Hits → Answer × Hits × W
  unfolding submit_body
  admit request w (true, hits) = (too_many_requests, hits, w)
  admit request w (false, hits) = let (answer, v) = submit_body request.body w in (answer, hits, v)

  unfoldable pub post : (Text → Option Text) → ℕ → Request → Hits → W → Answer × Hits × W
  unfolding admit
  post url_host now request hits w =
      if same_origin url_host request.origin request.host
      then admit request w
          (rate_limited (client_ip request.cf_connecting_ip request.x_forwarded_for) now hits)
      else (forbidden, hits, w)
