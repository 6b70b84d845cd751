-- ===== src/Tenancy/Context.antt =====
-- context.ts: `RequestContext`, and running as a tenant or without one.
use erp_global.Common.{Bool, true, false, Option, none, some, List, [], ◌∷◌}
use erp_global.Common.Text.{Text}
use erp_global.Common.Action.{Result, ok, err}
use erp_global.Contracts.{AclEntry}
use erp_global.Events.Outbox.{Actor}

pub record RequestContext : Type 0 where
  pub correlation_id : Text
  pub tenant_id : Option Text
  pub actor : Option Actor
  pub session_id : Option Text
  pub acl : List AclEntry
  pub plat : List Text
  pub lang : Option Text
  pub bypass_tenant : Bool

-- The errors: no tenant in the context, and a violation with the place where it was met.
pub data TenancyError : Type 0 where
  context_missing : TenancyError
  isolation_violation : Text → TenancyError

unfoldable pub require_context : Option RequestContext → Result TenancyError RequestContext
require_context none = err context_missing
require_context (some ctx) = ok ctx

-- A tenant id that is the empty text counts as none.
unfoldable pub tenant_of_id : Option Text → Result TenancyError Text
tenant_of_id none = err context_missing
tenant_of_id (some []) = err context_missing
tenant_of_id (some (c ∷ s)) = ok (c ∷ s)

unfoldable pub require_tenant_id : Option RequestContext → Result TenancyError Text
unfolding tenant_of_id
require_tenant_id none = err context_missing
require_tenant_id (some ctx) = tenant_of_id ctx.tenant_id

unfoldable pub bypass : Option RequestContext → Bool
bypass none = false
bypass (some ctx) = ctx.bypass_tenant

-- The context that `runAsTenant` gives to `fn`: the id of the caller's context, or a new one.
unfoldable pub as_tenant : Option RequestContext → Text → Text → Actor → RequestContext
as_tenant parent fresh_id tenant_id who = record {
  correlation_id = elim parent [ none ↦ fresh_id | some ctx ↦ ctx.correlation_id ];
  tenant_id = some tenant_id;
  actor = some who;
  session_id = none;
  acl = [];
  plat = [];
  lang = none;
  bypass_tenant = false;
}

-- The context that `runWithoutTenant` gives to `fn`.
unfoldable pub without_tenant : Option RequestContext → Text → RequestContext
without_tenant parent fresh_id = record {
  correlation_id = elim parent [ none ↦ fresh_id | some ctx ↦ ctx.correlation_id ];
  tenant_id = none;
  actor = elim parent [ none ↦ none | some ctx ↦ ctx.actor ];
  session_id = none;
  acl = [];
  plat = [];
  lang = none;
  bypass_tenant = true;
}
