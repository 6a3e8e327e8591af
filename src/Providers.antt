-- ===== src/Providers.antt =====
-- worker.py: the calls of the outside services that deliver messages. A call appends its request to
-- the world's list, whatever the service answers.
pub mod Effects
use Prim.Native.Char.{code}
use Prim.Native.String
use loboguara.Common.{
  ℕ, String, Bool, true, false, not, Option, none, some, List, [], ◌∷◌, ◌++◌, ◌&&◌, ◌||◌, length,
  Exception, runtime_error, http_error, url_error, attribute_error, json_error, Result, ok, err,
  get_or, str_eq, ◌==◌, if◌then◌else◌,
}
use loboguara.Common.Int.{pos, negsuc}
use loboguara.Common.Text.{◌⧺◌, lower, strip, starts_with}
use loboguara.Models.{
  Value, Items, Fields, Mapping, Uuid, Notification, Contact, null, boolean, integer, text, uuid,
  array, object, nil, cons, end, field, entry,
}
use loboguara.World.{World, Env, HttpRequest, HttpReply, reply, failed}
use loboguara.Action.{Action, pure, raise, gets, lift, on_option, ◌>>=◌, ◌>>◌}
use loboguara.Database.{contact_by_id}
use loboguara.Template.{nonempty}

-- `bool(value)`
unfoldable pub truthy : Value → Bool
truthy null = false
truthy (boolean b) = b
truthy (integer (pos n)) = not (n == 0)
truthy (integer (negsuc n)) = true
truthy (text s) = not (str_eq s "")
truthy (uuid u) = true
truthy (array nil) = false
truthy (array (cons x xs)) = true
truthy (object end) = false
truthy (object (field k v fs)) = true

-- the value of a key if it counts as true
unfoldable pub truthy_entry : String → Fields → Option Value
unfolding truthy
truthy_entry k fs = elim (entry k fs) [ none ↦ none | some v ↦ if truthy v then some v else none ]

-- `urlopen(request)` or `httpx.post(...)`
unfoldable pub http_call : Env → HttpRequest → Action HttpReply
http_call env request w =
    (ok (env.http (length w.requests) request), record w { requests = w.requests ++ request ∷ [] })

-- the object that `.get` is called on
unfoldable pub fields_of : Value → Result Fields
fields_of (object fs) = ok fs
fields_of _ = err (attribute_error "object has no attribute 'get'")

-- the call id in the provider's answer
call_sid : Env → String → HttpReply → Action String
call_sid env provider_label (failed e) = raise e
call_sid env provider_label (reply status body none) = raise json_error
call_sid env provider_label (reply status body (some value)) = do
  parsed ← lift (fields_of value)
  on_option (truthy_entry "sid" parsed)
      (raise (runtime_error (provider_label ⧺ " response did not include call sid")))
      (λ sid. pure (env.value_text sid))

-- `_call_provider_voice`; the Basic authorization is the pair that it encodes
unfoldable pub call_provider_voice :
    Env
    → (endpoint account_id auth_token from_number contact_phone twiml_url provider_label : String)
    → Action String
unfolding call_sid
call_provider_voice env endpoint account_id auth_token from_number contact_phone twiml_url
      provider_label =
    if str_eq account_id "" || (str_eq auth_token "" || str_eq from_number "")
    then raise (runtime_error (provider_label ⧺ " credentials are not configured"))
    else do
      answer ← http_call env (record {
        url = endpoint;
        authorization = account_id ⧺ ":" ⧺ auth_token;
        body =
            ("To", text contact_phone)
            ∷ ("From", text from_number)
            ∷ ("Url", text twiml_url)
            ∷ ("Method", text "POST")
            ∷ [];
      })
      call_sid env provider_label answer

-- `_call_twilio_voice`
unfoldable pub call_twilio_voice : Env → String → String → Action String
call_twilio_voice env contact_phone twiml_url =
    let config = env.config in
    call_provider_voice env
      ("https://api.twilio.com/2010-04-01/Accounts/" ⧺ config.twilio_account_sid ⧺ "/Calls.json")
      config.twilio_account_sid config.twilio_auth_token config.twilio_from_number contact_phone
      twiml_url "Twilio"

-- `str.rstrip("/")`
unfoldable pub strip_slashes : String → String
strip_slashes String.[] = ""
strip_slashes (String.◌∷◌ c s) = elim (strip_slashes s) [
  | String.[] ↦ if code c == b'/' then "" else String.◌∷◌ c ""
  | String.◌∷◌ d r ↦ String.◌∷◌ c (String.◌∷◌ d r)
]

-- `_call_signalwire_voice`
unfoldable pub call_signalwire_voice : Env → String → String → Action String
unfolding strip_slashes
call_signalwire_voice env contact_phone twiml_url =
    let config = env.config in
    let stripped = strip_slashes (strip config.signalwire_space_url) in
    let space =
      (if starts_with stripped "http://" || starts_with stripped "https://"
        then stripped
        else "https://" ⧺ stripped) in
    let call =
      call_provider_voice env
        (space ⧺ "/api/laml/2010-04-01/Accounts/" ⧺ config.signalwire_project_id ⧺ "/Calls.json")
        config.signalwire_project_id config.signalwire_api_token config.signalwire_from_number
        contact_phone twiml_url "SignalWire" in
    if str_eq config.signalwire_space_url ""
    then raise (runtime_error "SignalWire space URL is not configured")
    else call

-- `_voice_twiml_url`
unfoldable pub voice_twiml_url : Env → Uuid → Option Uuid → String
voice_twiml_url env notification_id trace_id =
    let config = env.config in
    let mode = lower (strip (get_or (nonempty (some config.voice_twiml_mode)) "dynamic")) in
    let query : String = elim trace_id [ none ↦ "" | some t ↦ "?trace_id=" ⧺ env.uuid_text t ] in
    if str_eq mode "prerecorded" && not (str_eq config.voice_prerecorded_audio_url "")
    then config.app_base_url
      ⧺ "/dispatch/voice/twiml/prerecorded/"
      ⧺ env.uuid_text notification_id
      ⧺ query
    else config.app_base_url ⧺ "/dispatch/voice/twiml/" ⧺ env.uuid_text notification_id ⧺ query

-- the contact's phone, if there is one
abbrev phone_of : Option Contact → Option String
phone_of none = none
phone_of (some contact) = nonempty contact.phone

voice_call : Env → String → String → Uuid → Option Uuid → Action (Option String)
voice_call env provider phone notification_id trace_id =
    let url = voice_twiml_url env notification_id trace_id in
    if str_eq provider "twilio"
    then (do sid ← call_twilio_voice env phone url; pure (some sid))
    else (do sid ← call_signalwire_voice env phone url; pure (some sid))

-- `_dispatch_voice_provider`
unfoldable pub dispatch_voice_provider : Env → Notification → Option Uuid → Action (Option String)
unfolding voice_call
dispatch_voice_provider env notification trace_id =
    let provider = lower (strip (get_or (nonempty (some env.config.voice_provider)) "mock")) in
    if not (str_eq provider "twilio" || str_eq provider "signalwire") then pure none else do
      contact ← gets (contact_by_id notification.contact_id)
      on_option (phone_of contact)
          (raise (runtime_error "Contact phone is not available for voice dispatch"))
          (λ phone. voice_call env provider phone notification.id trace_id)

-- `result.get("message_id")`; a null counts as missing
message_id_of : Option Value → Result (Option Value)
message_id_of none = ok none
message_id_of (some (object fs)) =
    ok (elim (entry "message_id" fs) [ some null ↦ none | none ↦ none | some v ↦ some v ])
message_id_of (some _) = err (attribute_error "object has no attribute 'get'")

abbrev telegram_error : String → Exception
telegram_error detail = runtime_error ("Telegram sendMessage failed: " ⧺ detail)

pub telegram_answer : Env → HttpReply → Action String
unfolding message_id_of
telegram_answer env (failed (http_error code body)) =
    raise (telegram_error ("HTTP " ⧺ env.value_text (integer (pos code)) ⧺ " - " ⧺ body))
telegram_answer env (failed (url_error reason)) = raise (telegram_error reason)
telegram_answer env (failed e) = raise e
telegram_answer env (reply status body none) = raise json_error
telegram_answer env (reply status body (some value)) = do
  parsed ← lift (fields_of value)
  on_option (truthy_entry "ok" parsed)
      (raise (
        telegram_error
          (env.value_text (get_or (entry "description" parsed) (text "unknown error")))))
      (λ _. do
        message_id ← lift (message_id_of (truthy_entry "result" parsed))
        on_option message_id
            (raise (runtime_error "Telegram sendMessage response did not include message_id"))
            (λ v. pure (env.value_text v)))

-- `_send_telegram_via_bot_api`
unfoldable pub send_telegram_via_bot_api : Env → String → String → Action String
unfolding telegram_answer
send_telegram_via_bot_api env chat_id message =
    let token = strip env.config.telegram_bot_token in
    if str_eq token "" then raise (runtime_error "Telegram bot token is not configured") else do
      answer ← http_call env (record {
        url = "https://api.telegram.org/bot" ⧺ token ⧺ "/sendMessage";
        authorization = "";
        body =
            ("chat_id", text chat_id)
            ∷ ("text", text message)
            ∷ ("parse_mode", text "MarkdownV2")
            ∷ ("disable_web_page_preview", boolean true)
            ∷ [];
      })
      telegram_answer env answer

-- `_resend_is_configured`
abbrev pub resend_is_configured : Env → Bool
resend_is_configured env = not (str_eq (strip env.config.resend_api_key) "")

resend_answer : Env → HttpReply → Action String
resend_answer env (failed e) = raise e
resend_answer env (reply status body parsed) =
    if not (status == 200 || status == 201)
    then raise (
        runtime_error (
          "Resend email send failed: HTTP " ⧺ env.value_text (integer (pos status)) ⧺ " - " ⧺ body))
    else on_option parsed (raise (runtime_error "Resend email send failed: invalid JSON response"))
        (λ value. do
          payload ← lift (fields_of value)
          on_option (truthy_entry "id" payload)
              (raise (runtime_error "Resend email send failed: response did not include id"))
              (λ message_id. pure (env.value_text message_id)))

-- `_send_email_via_resend`
unfoldable pub send_email_via_resend : Env → (to_email subject html : String) → Action String
unfolding resend_answer
send_email_via_resend env to_email subject html =
    if not (resend_is_configured env)
    then raise (runtime_error "Resend is not configured (missing RESEND_API_KEY)")
    else do
      answer ← http_call env (record {
        url = "https://api.resend.com/emails";
        authorization = "Bearer " ⧺ strip env.config.resend_api_key;
        body =
            (
              "from",
              text (
                  get_or (nonempty (some (strip env.config.resend_from_email)))
                    "logs@araticum.net"),
            )
            ∷ (
              "to",
              array (
                  cons (text (get_or (nonempty (some (strip env.config.resend_to_email))) to_email))
                    nil),
            )
            ∷ ("subject", text subject)
            ∷ ("html", text html)
            ∷ [];
      })
      resend_answer env answer
