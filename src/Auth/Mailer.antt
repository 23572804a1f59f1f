-- ===== src/Auth/Mailer.antt =====
-- packages/core/src/auth/mailer.ts: whether a mail is sent, to whom and about what. Of its HTML only what
-- the program puts in is kept.
use queueway.Base.{ℕ, Bool, nat_eq, String, Option, none, some, if◌then◌else◌}
use Prim.Native.String.{◌++◌}
use queueway.Types.{or_else}
use queueway.Config.{Environment}
use queueway.Auth.Credentials.{present}
use queueway.Auth.Routes.{Mail, welcome, password_reset}

pub record Transporter : Type 0 where
  pub host : String
  pub port : ℕ
  pub secure : Bool
  pub user : String
  pub pass : String

abbrev pub transporter : Option String → ℕ → Option String → Option String → Option Transporter
transporter (some host) port (some user) (some pass) =
    some (record { host = host; port = port; secure = nat_eq port 465; user = user; pass = pass })
transporter _ _ _ _ = none

abbrev pub port_of_smtp : (String → ℕ) → Option String → ℕ
port_of_smtp number none = 465
port_of_smtp number (some text) = number text

-- `number` is JavaScript's `Number`; an empty variable counts as missing.
unfoldable pub get_transporter : (number : String → ℕ) → Environment → Option Transporter
get_transporter number env =
    transporter (present (env "QUEUEWAY_SMTP_HOST"))
      (port_of_smtp number (present (env "QUEUEWAY_SMTP_PORT")))
      (present (env "QUEUEWAY_SMTP_USER")) (present (env "QUEUEWAY_SMTP_PASS"))

-- `content` is what stands in the HTML of the request: the address, or the link.
pub record Message : Type 0 where
  pub from : String
  pub to : String
  pub cc : Option String
  pub subject : String
  pub content : String

abbrev sender : Environment → String
sender env = "\"Queueway (Modestick)\" <" ++ or_else (env "QUEUEWAY_SMTP_USER") "undefined" ++ ">"

-- `process.env.QUEUEWAY_ADMIN_EMAIL || process.env.QUEUEWAY_SMTP_USER`
abbrev admin_of : Option String → Option String → Option String
admin_of none user = user
admin_of (some email) user = some email

abbrev pub admin : Environment → Option String
admin env = admin_of (present (env "QUEUEWAY_ADMIN_EMAIL")) (env "QUEUEWAY_SMTP_USER")

unfoldable pub message_of : Environment → Mail → Message
message_of env (welcome to_email) = record {
  from = sender env;
  to = to_email;
  cc = admin env;
  subject = "Welcome to Queueway — your dashboard is ready";
  content = to_email;
}
message_of env (password_reset to_email reset_url) = record {
  from = sender env;
  to = to_email;
  cc = none;
  subject = "Reset your Queueway password";
  content = reset_url;
}

-- How sending ends: it is logged in each case and never thrown.
pub data Sending : Type 0 where
  skipped : Sending
  sent failed : Message → Sending

abbrev pub sent_with : (accepts : Bool) → Option Transporter → Message → Sending
sent_with accepts none m = skipped
sent_with accepts (some t) m = if accepts then sent m else failed m

-- `sendWelcomeEmail` and `sendPasswordResetEmail`; `accepts` is whether the mail server takes it.
unfoldable pub send_email : (number : String → ℕ) → Environment → (accepts : Bool) → Mail → Sending
send_email number env accepts mail =
    sent_with accepts (get_transporter number env) (message_of env mail)
