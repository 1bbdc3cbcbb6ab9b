-- ===== src/Scope/User.antt =====
-- common/types/request-context.ts and common/utils/org-scope.ts: the caller of a route.
use towerdesk_backend.Common.{Bool, Option, none, some, not, nat_beq, if◌then◌else◌}
use towerdesk_backend.Store.{Uid, Action, pure, throw, forbidden, unauthorized}

-- `AuthenticatedUser`: `null` and an absent value of `orgId` are both `none`.
pub record AuthenticatedUser : Type 0 where
  pub sub : Uid
  pub org_id : Option Uid

-- A string is falsy when it is empty.
abbrev pub is_truthy : Uid → Bool
is_truthy s = not (nat_beq s 0)

-- A string that may be absent, as a condition reads it.
abbrev pub truthy : Option Uid → Option Uid
truthy none = none
truthy (some s) = if is_truthy s then some s else none

-- `user?.orgId` and `user?.sub`, `none` where they are falsy
abbrev pub org_of : Option AuthenticatedUser → Option Uid
org_of none = none
org_of (some user) = truthy user.org_id

abbrev pub sub_of : Option AuthenticatedUser → Option Uid
sub_of none = none
sub_of (some user) = truthy (some user.sub)

-- `assertOrgScope`
unfoldable pub assert_org_scope : Option AuthenticatedUser → Action Uid
assert_org_scope user = elim (org_of user) [
  | none ↦ throw (forbidden "Org scope required")
  | some org_id ↦ pure org_id
]

-- `const userId = user?.sub; if (!userId) throw new UnauthorizedException('Unauthorized')`
unfoldable pub require_user_id : Option AuthenticatedUser → Action Uid
require_user_id user = elim (sub_of user) [
  | none ↦ throw (unauthorized "Unauthorized")
  | some user_id ↦ pure user_id
]
