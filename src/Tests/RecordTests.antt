-- ===== src/Tests/RecordTests.antt =====
-- Runs of the audit interceptor, the timeline of an asset and the mail service (apps/api/src/common,
-- apps/api/src/modules/assets).
use asset_hub.Prelude.{◌+◌, ◌≡◌, none, some, [], ◌∷◌, length}
use asset_hub.Prelude.Text.{codes}
use asset_hub.Prelude.Action.{ok}
use asset_hub.Audit.Naming.{Params}
use asset_hub.Audit.Interceptor.{HttpRequest, returned, intercept}
use asset_hub.Audit.Recording.{Appends, audits, intercept-records}
use asset_hub.Assets.Timeline.{Sources}
use asset_hub.Mail.Messages.{escape}
use asset_hub.Mail.Escaping.{Inert, read_html, read-escape_html}
use asset_hub.Tests.Data.{admin, laptop}

abbrev no_params : Params
no_params = record {
  asset_id = some (codes "20");
  user_id = none;
  company_id = none;
  vendor_id = none;
  role_id = none;
  idp_config_id = none;
  token_id = none;
  asset_type_id = none;
  transfer_id = none;
  acknowledgement_id = none;
  template_id = none;
  document_id = none;
}

abbrev patch : HttpRequest
patch = record {
  http_method = some (codes "patch");
  route_path = some (codes "/api/v1/assets/:assetId");
  original_url = none;
  url = none;
  auth = some admin;
  params = no_params;
  ip = none;
  user_agent = none;
}

intercept-records_example :
    ((intercept patch 200 (returned none) 1000 []).0 ≡ ok (returned none))
    × Appends (some admin) [] (intercept patch 200 (returned none) 1000 []).1
    × (length (intercept patch 200 (returned none) 1000 []).1 ≡ 0 + audits (some admin) patch)
intercept-records_example = intercept-records patch 200 (returned none) 1000 []

abbrev sources : Sources
sources = record {
  assets = laptop ∷ [];
  created_at = λ _. some 5000;
  lifecycle = [];
  assignments =
      record {
        id = 1;
        asset_id = 20;
        user_id = some 7;
        assigned_at = 9000;
        returned_at = none;
        via_transfer = none;
      }
      ∷ [];
  documents = [];
  audits = [];
  transfers = [];
  maintenance = [];
  acknowledgements = [];
  id_text = λ _. codes "20";
}

read-escape_html_example :
    Inert (escape (codes "<b>\"Tom & 'Al'\"</b>"))
    × (read_html none (escape (codes "<b>\"Tom & 'Al'\"</b>")) ≡ codes "<b>\"Tom & 'Al'\"</b>")
read-escape_html_example = read-escape_html (codes "<b>\"Tom & 'Al'\"</b>")
