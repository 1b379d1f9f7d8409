-- ===== src/Console/Kyb/Examples.antt =====
-- Submissions of details at concrete requests: apps/web/src/app/api/kyb/route.ts.
use solva.Prelude.{
  ℕ, ◌+◌, Bool, true, false, ◌≤◌, ◌≡◌, ◌≢◌, refl, List, [], ◌∷◌, Option, none, some, ◌⊎◌, arith,
  All,
}
use solva.Prelude.Text.{Text, codes}
use solva.Prelude.Effect.{Eff, ret, throw}
use solva.Prelude.Payload.{parsed}
use solva.Console.Kyb.{
  Body, Request, Template, kyb_received, kyb_notification, kyb_approved, Mail, submitted,
  too_many_requests, forbidden, missing_details, email_looks_valid, post,
}
use solva.Console.Kyb.Throttle.{Hits, get}
use solva.Console.Kyb.Throttle.Bounds.{accepted, WithinWindow, accepted-in_window}
use solva.Console.Kyb.Refusal.{Passed, IsRefused, post-Passed-IsRefused, post-approves_nothing}

abbrev body : Body
body = record {
  legal_name = some (codes " Mero Anchor ");
  contact_name = some (codes "A. Rao");
  contact_email = some (codes "rao@mero.example");
  type = none;
  institution = none;
  jurisdiction = none;
  registration_number = none;
}

abbrev request : Request
request = record {
  origin = some (codes "https://app.example");
  host = some (codes "app.example");
  cf_connecting_ip = none;
  x_forwarded_for = some (codes "10.0.0.7, 10.0.0.1");
  body = parsed body;
}

abbrev url_host : Text → Option Text
url_host url = some (codes "app.example")

-- The world counts the mails.
abbrev count : Mail → Eff ℕ Text (Unit {0})
count mail w = ret tt (w + 1)

abbrev count_but : Template → Eff ℕ Text (Unit {0})
count_but kyb_approved w = throw (codes "no approvals") w
count_but kyb_received w = ret tt (w + 1)
count_but kyb_notification w = ret tt (w + 1)

abbrev count_unapproved : Mail → Eff ℕ Text (Unit {0})
count_unapproved mail = count_but mail.template

count-count_but :
    (template : Template) (w : ℕ) → template ≢ kyb_approved → ret tt (w + 1) ≡ count_but template w
count-count_but kyb_received w h = refl
count-count_but kyb_notification w h = refl
count-count_but kyb_approved w h = absurd (h refl)

post-sends_two : (post count url_host 0 request [] 0).2 ≡ 2
unfolding post solva.Console.Kyb.same_origin solva.Prelude.Text.text_eq
    solva.Console.Kyb.Throttle.rate_limited solva.Console.Kyb.has_details
    solva.Console.Kyb.submission_of solva.Prelude.Text.trim
post-sends_two = refl

post-sixth :
    (post count url_host 5 request
      ((codes "10.0.0.7", record { count = 5; reset_at = 9 }) ∷ [])
      0).0
    ≡ too_many_requests
unfolding post solva.Console.Kyb.same_origin solva.Prelude.Text.text_eq
    solva.Console.Kyb.Throttle.rate_limited solva.Console.Kyb.client_ip solva.Prelude.Text.trim
post-sixth = refl

email-tests :
    (email_looks_valid (codes "a@b.c") ≡ true)
    × (email_looks_valid (codes "a@b") ≡ false)
    × (email_looks_valid (codes "@b.c") ≡ false)
unfolding email_looks_valid
email-tests = (refl, refl, refl)

post-Passed-IsRefused_example :
    Passed url_host 0 request []
    ⊎ IsRefused
        (parsed body)
        0
        (post count url_host 0 request [] 0).0
        (post count url_host 0 request [] 0).2
post-Passed-IsRefused_example = post-Passed-IsRefused count url_host 0 request [] 0

post-approves_nothing_example :
    post count url_host 0 request [] 0 ≡ post count_unapproved url_host 0 request [] 0
post-approves_nothing_example =
    post-approves_nothing count count_unapproved (λ mail w h. count-count_but mail.template w h)
      url_host 0 request [] 0

abbrev calls : List (Text × ℕ)
calls = (codes "10.0.0.7", 100) ∷ (codes "10.0.0.8", 150) ∷ (codes "10.0.0.7", 60100) ∷ []

calls-WithinWindow : All (WithinWindow 100) calls
unfolding WithinWindow
calls-WithinWindow =
    ((omega arith, omega arith), ((omega arith, omega arith), ((omega arith, omega arith), tt)))

accepted-in_window_example :
    (accepted (codes "10.0.0.7") calls [] ≤ 10)
    × (get (codes "10.0.0.7") [] ≡ none → accepted (codes "10.0.0.7") calls [] ≤ 5)
accepted-in_window_example = accepted-in_window (codes "10.0.0.7") 100 calls [] calls-WithinWindow
