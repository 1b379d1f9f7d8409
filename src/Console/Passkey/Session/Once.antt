-- ===== src/Console/Passkey/Session/Once.antt =====
-- The session is made once: apps/web/src/lib/passkey/session.ts.
use solva.Prelude.{◌≡◌, refl, Option, none, some}
use solva.Prelude.Text.{Text}
use solva.Prelude.Effect.{Result}
use solva.Console.Passkey.Session.{
  Session, Platform, Module, settle, create_session, session_in, get_session,
}

module _ {W : Type 0} (platform : Platform W) where
  settled-again :
      (made : Result Text Session × W)
      → get_session platform (settle platform made).1 ≡ settle platform made
  unfolding get_session session_in settle
  settled-again (result, w) = refl

  session_in-again :
      (session : Option (Result Text Session)) (w : W)
      → get_session platform (session_in platform session w).1 ≡ session_in platform session w
  unfolding get_session session_in settle
  session_in-again (some result) w = refl
  session_in-again none w = settled-again (create_session platform w)

  -- Once the session was asked for, asking again gives the same result, a failure to fund the
  -- account included, and does nothing: no further attempt is made.
  pub get_session-again :
      (kept : Module W)
      → get_session platform (get_session platform kept).1 ≡ get_session platform kept
  unfolding get_session
  get_session-again kept = session_in-again kept.session kept.world
