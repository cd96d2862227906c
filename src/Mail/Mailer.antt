-- ===== src/Mail/Mailer.antt =====
-- The settings of the mail service (mail.service.ts, the constructor). The port is left as its text.
use asset_hub.Prelude.{Option, none, some, Bool, not, ◌||◌, [], get_or, if◌then◌else◌}
use asset_hub.Prelude.Text.{Text, codes, text_eq, to_lower}
use asset_hub.Prelude.Action.{Result, ok, err, failure}

-- The environment of the process; an empty variable is given and empty.
pub record Env : Type 0 where
  pub mail_enabled : Option Text
  pub mail_from : Option Text
  pub smtp_user : Option Text
  pub app_name : Option Text
  pub smtp_host : Option Text
  pub smtp_port : Option Text
  pub smtp_password : Option Text
  pub smtp_secure : Option Text

pub record Transport : Type 0 where
  pub host : Text
  pub port : Text
  pub secure : Bool
  pub user : Text
  pub pass : Text
  pub require_tls : Bool

pub record Mailer : Type 0 where
  pub transporter : Option Transport
  pub from : Text
  pub app_name : Text

abbrev pub is_on : Option Text → Bool
is_on v = text_eq (to_lower (get_or v (codes "false"))) (codes "true")

abbrev blank : Text → Bool
blank t = text_eq t []

-- The constructor.
unfoldable pub mailer : Env → Result Mailer
unfolding to_lower
mailer env =
    let from = get_or env.mail_from (get_or env.smtp_user []) in
    let app_name = get_or env.app_name (codes "AssetHub") in
    let host = get_or env.smtp_host [] in
    let user = get_or env.smtp_user [] in
    let pass = get_or env.smtp_password [] in
    let secure = is_on env.smtp_secure in
    if not (is_on env.mail_enabled)
    then ok (record { transporter = none; from = from; app_name = app_name })
    else if blank host || blank user || blank pass || blank from
    then err
        (failure "MAIL_ENABLED=true requires SMTP_HOST, SMTP_USER, SMTP_PASSWORD and MAIL_FROM")
    else ok (record {
      transporter = some (record {
        host = host;
        port = get_or env.smtp_port (codes "587");
        secure = secure;
        user = user;
        pass = pass;
        require_tls = not secure;
      });
      from = from;
      app_name = app_name;
    })
