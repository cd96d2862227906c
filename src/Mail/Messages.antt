-- ===== src/Mail/Messages.antt =====
-- The messages of the mail service (mail.service.ts). `toLocaleString` is a parameter.
use asset_hub.Prelude.{ℕ, Bool, List, [], ◌∷◌, ◌++◌, ◌==◌, if◌then◌else◌}
use asset_hub.Prelude.Text.{Text, codes, decimal}
use asset_hub.Mail.Mailer.{Mailer}

-- The entity for a character that HTML reads specially.
abbrev pub entity : ℕ → Text
entity c =
    if c == b'&'
    then codes "&amp;"
    else if c == b'<'
    then codes "&lt;"
    else if c == b'>'
    then codes "&gt;"
    else if c == 39
    then codes "&#39;"
    else if c == 34
    then codes "&quot;"
    else c ∷ []

unfoldable pub escape : Text → Text
escape [] = []
escape (c ∷ s) = entity c ++ escape s

pub record Message : Type 0 where
  pub from : Text
  pub to : Text
  pub subject : Text
  pub text : Text
  pub html : Text

-- Line ends in front of the lines but the first.
abbrev pub lines : List Text → Text
lines [] = []
lines (t ∷ []) = t
lines (t ∷ u ∷ ts) = t ++ 10 ∷ lines (u ∷ ts)

pub data AccessAction : Type 0 where
  invite reset : AccessAction

pub record AccessMail : Type 0 where
  pub to : Text
  pub first_name : Text
  pub action : AccessAction
  pub setup_url : Text
  pub expires_at : ℕ

abbrev access_title : AccessAction → Text
access_title invite = codes "Your AssetHub account is ready"
access_title reset = codes "Reset your AssetHub access"

abbrev access_intro : AccessAction → Text
access_intro invite = codes "A tenant administrator created an AssetHub account for you."
access_intro reset =
    codes "A tenant administrator requested a new password setup for your AssetHub account."

abbrev access_html : Mailer → AccessMail → Text → Text → Text → Text
access_html m input title intro expires =
    codes
      "<!doctype html><html><body style=\"font-family:Arial,sans-serif;background:#f8fafc;padding:32px;color:#0f172a\"><div style=\"max-width:600px;margin:0 auto;background:#fff;border:1px solid #e2e8f0;border-radius:16px;padding:32px\"><p style=\"font-size:12px;font-weight:700;letter-spacing:.16em;text-transform:uppercase;color:#2563eb\">"
    ++ m.app_name
    ++ codes "</p><h1 style=\"font-size:24px;margin:8px 0 16px\">"
    ++ title
    ++ codes "</h1><p style=\"font-size:15px;line-height:1.7;color:#475569\">Hello "
    ++ escape input.first_name
    ++ codes ",</p><p style=\"font-size:15px;line-height:1.7;color:#475569\">"
    ++ escape intro
    ++ codes "</p><p style=\"margin:28px 0\"><a href=\""
    ++ escape input.setup_url
    ++ codes
        "\" style=\"display:inline-block;background:#2563eb;color:#fff;text-decoration:none;padding:12px 18px;border-radius:10px;font-weight:700\">Set up password</a></p><p style=\"font-size:13px;line-height:1.6;color:#64748b\">This secure link expires on "
    ++ escape expires
    ++ codes
        " IST and can only be used once.</p><p style=\"font-size:13px;line-height:1.6;color:#64748b\">If you did not expect this message, contact your AssetHub administrator.</p><p style=\"font-size:13px;color:#64748b;margin-top:28px\">— "
    ++ escape m.app_name
    ++ codes "</p></div></body></html>"

abbrev pub access_message : (ℕ → Text) → Mailer → AccessMail → Message
access_message local_time m input =
    let title = access_title input.action in
    let intro = access_intro input.action in
    let expires = local_time input.expires_at in
    record {
      from = m.from;
      to = input.to;
      subject = title;
      text = lines (
          (codes "Hello " ++ input.first_name ++ codes ",")
          ∷ []
          ∷ intro
          ∷ []
          ∷ (codes "Use this secure link to set your password: " ++ input.setup_url)
          ∷ []
          ∷ (codes "The link expires on " ++ expires ++ codes " IST and can only be used once.")
          ∷ []
          ∷ codes "If you did not expect this message, contact your AssetHub administrator."
          ∷ []
          ∷ (codes "— " ++ m.app_name)
          ∷ []);
      html = access_html m input title intro expires;
    }

pub record LicenseMail : Type 0 where
  pub to : Text
  pub first_name : Text
  pub tenant_name : Text
  pub plan_name : Text
  pub ends_at : ℕ
  pub days_remaining : ℕ
  pub expired : Bool

-- `… day` or `… days`
abbrev days_text : ℕ → Text
days_text n = decimal n ++ codes " day" ++ (if n == 1 then [] else codes "s")

abbrev license_subject : LicenseMail → Text
license_subject input =
    if input.expired
    then codes "AssetHub license expired — " ++ input.tenant_name
    else codes "AssetHub license expires in "
      ++ days_text input.days_remaining
      ++ codes " — "
      ++ input.tenant_name

abbrev license_intro : LicenseMail → Text
license_intro input =
    codes "The AssetHub "
    ++ input.plan_name
    ++ codes " license for "
    ++ input.tenant_name
    ++ (if input.expired
        then codes " has expired."
        else codes " expires in " ++ days_text input.days_remaining ++ codes ".")

abbrev license_action : Bool → Text
license_action expired =
    if expired
    then codes "Please contact your AssetHub account administrator to renew the subscription."
    else codes
        "Please contact your AssetHub account administrator to renew the subscription before the expiry date."

abbrev license_html : Mailer → LicenseMail → Text → Text → Text → Text → Text
license_html m input subject intro ends action_text =
    codes
      "<!doctype html><html><body style=\"font-family:Arial,sans-serif;background:#f8fafc;padding:32px;color:#0f172a\"><div style=\"max-width:600px;margin:0 auto;background:#fff;border:1px solid #e2e8f0;border-radius:16px;padding:32px\"><p style=\"font-size:12px;font-weight:700;letter-spacing:.16em;text-transform:uppercase;color:#2563eb\">"
    ++ escape m.app_name
    ++ codes "</p><h1 style=\"font-size:24px;margin:8px 0 16px\">"
    ++ escape subject
    ++ codes "</h1><p style=\"font-size:15px;line-height:1.7;color:#475569\">Hello "
    ++ escape input.first_name
    ++ codes ",</p><p style=\"font-size:15px;line-height:1.7;color:#475569\">"
    ++ escape intro
    ++ codes
        "</p><div style=\"background:#f8fafc;border-radius:12px;padding:16px;margin:20px 0\"><p style=\"margin:0 0 8px;font-size:13px;color:#64748b\">License expiry</p><p style=\"margin:0;font-weight:700\">"
    ++ escape ends
    ++ codes " IST</p></div><p style=\"font-size:14px;line-height:1.7;color:#475569\">"
    ++ escape action_text
    ++ codes
        "</p><p style=\"font-size:12px;line-height:1.6;color:#64748b;margin-top:24px\">This notification was sent to a tenant user with billing access.</p><p style=\"font-size:13px;color:#64748b;margin-top:28px\">— "
    ++ escape m.app_name
    ++ codes "</p></div></body></html>"

abbrev pub license_message : (ℕ → Text) → Mailer → LicenseMail → Message
license_message local_time m input =
    let subject = license_subject input in
    let intro = license_intro input in
    let ends = local_time input.ends_at in
    let action_text = license_action input.expired in
    record {
      from = m.from;
      to = input.to;
      subject = subject;
      text = lines (
          (codes "Hello " ++ input.first_name ++ codes ",")
          ∷ []
          ∷ intro
          ∷ (codes "Expiry: " ++ ends ++ codes " IST")
          ∷ []
          ∷ action_text
          ∷ []
          ∷ codes "This notification was sent to a tenant user with billing access."
          ∷ []
          ∷ (codes "— " ++ m.app_name)
          ∷ []);
      html = license_html m input subject intro ends action_text;
    }
