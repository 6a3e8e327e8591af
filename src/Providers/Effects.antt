-- ===== src/Providers/Effects.antt =====
-- A provider's call leaves the tables alone.
use loboguara.Common.{
  arith, inl, inr, refl, str_eq, Bool-cases, ◌≡◌, String, Option, some, none, http_error,
}
use loboguara.Common.Text.{strip}
use loboguara.Models.{Uuid, Notification}
use loboguara.World.{World, Env, Db, HttpReply, reply, failed}
use loboguara.Action.{combinators}
use loboguara.Action.Keeps.{Keeps, Keeps-raise, keeps_rules}
use loboguara.Frame.{InDb, http_call-InDb}
use loboguara.Providers.{
  call_sid, call_provider_voice, call_twilio_voice, call_signalwire_voice, voice_call,
  dispatch_voice_provider, telegram_answer, send_telegram_via_bot_api, resend_answer,
  send_email_via_resend, http_call,
}

module _ {Q : Db → Type 0} (env : Env) where
  call_sid-InDb : (label : String) (r : HttpReply) → Keeps (InDb Q) (call_sid env label r)
  unfolding call_sid
  call_sid-InDb label (failed e) = Keeps-raise e
  call_sid-InDb label (reply status body none) = search keeps_rules
  call_sid-InDb label (reply status body (some parsed)) = search keeps_rules depth 9

  call_provider_voice-InDb :
      (a b c d e f g : String) → Keeps (InDb Q) (call_provider_voice env a b c d e f g)
  unfolding call_provider_voice
  call_provider_voice-InDb a b c d e f g =
      search (keeps_rules, http_call-InDb, call_sid-InDb) depth 8

  call_twilio_voice-InDb : (a b : String) → Keeps (InDb Q) (call_twilio_voice env a b)
  unfolding call_twilio_voice
  call_twilio_voice-InDb a b = call_provider_voice-InDb _ _ _ _ _ _ _

  call_signalwire_voice-InDb : (a b : String) → Keeps (InDb Q) (call_signalwire_voice env a b)
  unfolding call_signalwire_voice
  call_signalwire_voice-InDb a b = search (keeps_rules, call_provider_voice-InDb) depth 8

  voice_call-InDb :
      (a b : String) (i : Uuid) (t : Option Uuid) → Keeps (InDb Q) (voice_call env a b i t)
  unfolding voice_call
  voice_call-InDb a b i t =
      search (keeps_rules, call_twilio_voice-InDb, call_signalwire_voice-InDb) depth 8

  pub dispatch_voice_provider-InDb :
      (n : Notification) (t : Option Uuid) → Keeps (InDb Q) (dispatch_voice_provider env n t)
  unfolding dispatch_voice_provider
  dispatch_voice_provider-InDb n t = search (keeps_rules, voice_call-InDb) depth 8

  telegram_answer-InDb : (r : HttpReply) → Keeps (InDb Q) (telegram_answer env r)
  unfolding telegram_answer
  telegram_answer-InDb (failed (http_error code body)) = search keeps_rules
  telegram_answer-InDb (failed _) = search keeps_rules
  telegram_answer-InDb (reply status body none) = search keeps_rules
  telegram_answer-InDb (reply status body (some parsed)) = search keeps_rules depth 9

  pub send_telegram_via_bot_api-InDb :
      (chat message : String) → Keeps (InDb Q) (send_telegram_via_bot_api env chat message)
  unfolding send_telegram_via_bot_api
  send_telegram_via_bot_api-InDb chat message =
      search (keeps_rules, http_call-InDb, telegram_answer-InDb) depth 8

  resend_answer-InDb : (r : HttpReply) → Keeps (InDb Q) (resend_answer env r)
  unfolding resend_answer
  resend_answer-InDb (failed e) = Keeps-raise e
  resend_answer-InDb (reply status body parsed) = search keeps_rules depth 9

  pub send_email_via_resend-InDb :
      (to subject html : String) → Keeps (InDb Q) (send_email_via_resend env to subject html)
  unfolding send_email_via_resend
  send_email_via_resend-InDb to subject html =
      search (keeps_rules, http_call-InDb, resend_answer-InDb) depth 8

-- An answer is read without a change.
pub telegram_answer_world :
    (env : Env) (r : HttpReply) (w : World) → (telegram_answer env r w).1 ≡ w
unfolding telegram_answer combinators
telegram_answer_world env r w = ground arith

-- The Bot API's call leaves the tables, Redis and the clock alone.
pub send_telegram_world :
    (env : Env) (chat message : String) (w : World)
    → ((send_telegram_via_bot_api env chat message w).1.redis ≡ w.redis)
      × ((send_telegram_via_bot_api env chat message w).1.db ≡ w.db)
      × ((send_telegram_via_bot_api env chat message w).1.now ≡ w.now)
unfolding send_telegram_via_bot_api http_call combinators
send_telegram_world env chat message w =
    elim (Bool-cases (str_eq (strip env.config.telegram_bot_token) "")) [
      | inl missing ↦ ground arith
      | inr there ↦ simp (there, telegram_answer_world) (refl, refl, refl)
    ]
