-- ===== src/Client/Admin/Attribution.antt =====
-- Every method of `MizanAdminClient` as one type of calls, and the actor that its requests name.
use mathlib.Core.List.{[], ◌∷◌}
use mizan_client_sdks.Base.{ℕ, ◌≤◌, String, ◌≡◌, Option, some, arith}
use mizan_client_sdks.Base.Int.{ℤ}
use mizan_client_sdks.Python.Value.{Fields, Result, ok}
use mizan_client_sdks.Python.Runtime.{Python}
use mizan_client_sdks.Webhooks.Receiver.{Headers, lookup}
use mizan_client_sdks.Webhooks.Receiver.Redaction.{lookup-insert}
use mizan_client_sdks.Client.Retry.{
  Command, Environment, update, request_headers, request_at, request,
}
use mizan_client_sdks.Client.Retry.Story.{request-Story}
use mizan_client_sdks.Client.Retry.Effects.{requests_of}
use mizan_client_sdks.Client.Retry.Identity.{Every, Every-requests}
use mizan_client_sdks.Client.Admin.{
  MizanAdminClient, get_global_delivery_endpoints, list_addons, configure_addon, list_businesses,
  list_usage_decisions, list_business_audit, configure_global_delivery_endpoint,
  get_business_delivery_endpoints, configure_business_delivery_endpoint,
}

pub data AdminCall : Type 0 where
  global_endpoints addons : AdminCall
  addon : (addon_code : String) → Fields → Option String → AdminCall
  businesses : (search_text : String) (offset limit : ℤ) → AdminCall
  decisions audit : (business_id : String) (offset limit : ℤ) → AdminCall
  global_endpoint : (kind : String) → Fields → Option String → AdminCall
  business_endpoints : (business_id : String) → AdminCall
  business_endpoint : (business_id kind : String) → Fields → Option String → AdminCall

unfoldable pub admin_command_of : MizanAdminClient → AdminCall → Result Command
admin_command_of admin global_endpoints = ok (get_global_delivery_endpoints admin)
admin_command_of admin addons = ok (list_addons admin)
admin_command_of admin (addon code body key) = configure_addon admin code body key
admin_command_of admin (businesses search offset limit) =
    ok (list_businesses admin search offset limit)
admin_command_of admin (decisions business_id offset limit) =
    ok (list_usage_decisions admin business_id offset limit)
admin_command_of admin (audit business_id offset limit) =
    ok (list_business_audit admin business_id offset limit)
admin_command_of admin (global_endpoint kind body key) =
    configure_global_delivery_endpoint admin kind body key
admin_command_of admin (business_endpoints business_id) =
    ok (get_business_delivery_endpoints admin business_id)
admin_command_of admin (business_endpoint business_id kind body key) =
    configure_business_delivery_endpoint admin business_id kind body key

abbrev actor_header : MizanAdminClient → Headers
actor_header admin = ("X-Admin-Actor", admin.actor) ∷ []

-- the command names the actor in its extra headers
extra_headers_of :
    (admin : MizanAdminClient) (call : AdminCall) (c : Command)
    → admin_command_of admin call ≡ ok c
    → c.extra_headers ≡ actor_header admin
unfolding admin_command_of get_global_delivery_endpoints list_addons configure_addon list_businesses
    list_usage_decisions list_business_audit configure_global_delivery_endpoint
    get_business_delivery_endpoints configure_business_delivery_endpoint
extra_headers_of admin global_endpoints c h = cc
extra_headers_of admin addons c h = cc
extra_headers_of admin (addon code body key) c h = ground arith
extra_headers_of admin (businesses search offset limit) c h = cc
extra_headers_of admin (decisions business_id offset limit) c h = cc
extra_headers_of admin (audit business_id offset limit) c h = cc
extra_headers_of admin (global_endpoint kind body key) c h = ground arith
extra_headers_of admin (business_endpoints business_id) c h = cc
extra_headers_of admin (business_endpoint business_id kind body key) c h = ground arith

module _ (py : Python) (admin : MizanAdminClient) (env : Environment) where
  request_at-actor :
      (c : Command) (attempt : ℕ)
      → c.extra_headers ≡ actor_header admin
      → lookup "X-Admin-Actor" (request_at py admin.client c env attempt).headers ≡ some admin.actor
  unfolding request_at request_headers update
  request_at-actor c attempt e =
      simp e (lookup-insert "X-Admin-Actor" "X-Admin-Actor" admin.actor _)

  -- With 1 to 1025 attempts, every request of every admin method names the client's actor.
  pub request-actor :
      (call : AdminCall) {c : Command}
      → admin_command_of admin call ≡ ok c
      → 1 ≤ admin.client.max_attempts
      → admin.client.max_attempts ≤ 1025
      → Every
          (λ q. lookup "X-Admin-Actor" q.headers ≡ some admin.actor)
          (requests_of (request py admin.client c env).1)
  request-actor call {c} h least most =
      Every-requests py admin.client c env
        (λ q. lookup "X-Admin-Actor" q.headers ≡ some admin.actor)
        (λ attempt. request_at-actor c attempt (extra_headers_of admin call c h))
        (request-Story py admin.client c env least most)
