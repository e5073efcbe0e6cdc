-- ===== src/Client/Admin.antt =====
-- `MizanAdminClient` of client.py, up to `_request`.
pub mod Attribution
use mathlib.Core.List.{[], ◌∷◌}
use mizan_client_sdks.Base.{String, Bool, true, false, not, ◌||◌, Option, none, some, ◌==◌}
use mizan_client_sdks.Base.Int.{ℤ}
use mizan_client_sdks.Python.Value.{Fields, value_error, Result, ok, ◌>>=◌, ◌>>◌, require}
use mizan_client_sdks.Python.Text.{append, is_empty}
use mizan_client_sdks.Python.Numbers.Print.{show_int}
use mizan_client_sdks.Client.Paths.{quote, quote_plus}
use mizan_client_sdks.Client.Retry.{MizanClient, Command}

pub record MizanAdminClient : Type 0 where
  pub client : MizanClient
  pub actor : String

-- MizanAdminClient(...), on the result of `super().__init__`
unfoldable pub init_admin : Result MizanClient → String → Result MizanAdminClient
init_admin base actor = do
  client ← base
  require (not (is_empty actor)) (value_error "actor is required")
  ok (record { client = client; actor = actor })

module _ (admin : MizanAdminClient) where
  -- a read with the admin headers
  abbrev admin_read : String → String → Command
  admin_read path business_id = record {
    method = "GET";
    path = path;
    body = none;
    business_id = business_id;
    idempotency_key = none;
    mutation = false;
    extra_headers = ("X-Admin-Actor", admin.actor) ∷ [];
  }

  abbrev admin_put : String → Fields → String → Option String → Command
  admin_put path request business_id key = record {
    method = "PUT";
    path = path;
    body = some request;
    business_id = business_id;
    idempotency_key = key;
    mutation = true;
    extra_headers = ("X-Admin-Actor", admin.actor) ∷ [];
  }

  -- f"/admin/api/businesses/{quote(business_id, safe='')}/{suffix}"
  abbrev admin_business : String → String → String
  admin_business business_id suffix =
      append "/admin/api/businesses/" (append (quote business_id) (append "/" suffix))

  abbrev page : ℤ → ℤ → String
  page offset limit =
      append "offset=" (append (show_int offset) (append "&limit=" (show_int limit)))

  unfoldable pub get_global_delivery_endpoints : Command
  get_global_delivery_endpoints = admin_read "/admin/api/delivery-endpoints" ""

  unfoldable pub list_addons : Command
  list_addons = admin_read "/admin/api/addons" ""

  unfoldable pub configure_addon : String → Fields → Option String → Result Command
  configure_addon addon_code request key = do
    require (not (is_empty addon_code)) (value_error "addon_code is required")
    ok (admin_put (append "/admin/api/addons/" (quote addon_code)) request "" key)

  unfoldable pub list_businesses : String → ℤ → ℤ → Command
  list_businesses search_text offset limit =
      admin_read
        (append "/admin/api/businesses?search="
          (append (quote_plus search_text) (append "&" (page offset limit))))
        ""

  unfoldable pub list_usage_decisions : String → ℤ → ℤ → Command
  list_usage_decisions business_id offset limit =
      admin_read (admin_business business_id (append "usage-decisions?" (page offset limit)))
        business_id

  unfoldable pub list_business_audit : String → ℤ → ℤ → Command
  list_business_audit business_id offset limit =
      admin_read (admin_business business_id (append "audit?" (page offset limit))) business_id

  abbrev is_kind : String → Bool
  is_kind kind = (kind == "ledger") || (kind == "notification")

  unfoldable pub configure_global_delivery_endpoint :
      String → Fields → Option String → Result Command
  configure_global_delivery_endpoint kind request key = do
    require (is_kind kind) (value_error "kind must be ledger or notification")
    ok (admin_put (append "/admin/api/delivery-endpoints/" kind) request "" key)

  unfoldable pub get_business_delivery_endpoints : String → Command
  get_business_delivery_endpoints business_id =
      admin_read (admin_business business_id "delivery-endpoints") business_id

  unfoldable pub configure_business_delivery_endpoint :
      String → String → Fields → Option String → Result Command
  configure_business_delivery_endpoint business_id kind request key = do
    require (is_kind kind) (value_error "kind must be ledger or notification")
    ok (
        admin_put (admin_business business_id (append "delivery-endpoints/" kind)) request
          business_id key)
