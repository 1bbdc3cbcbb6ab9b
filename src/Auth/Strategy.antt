-- ===== src/Auth/Strategy.antt =====
-- strategies/jwt.strategy.ts: the user of a request whose token passport has verified.
use towerdesk_backend.Common.{Option, none, some, is_empty, if◌then◌else◌}
use towerdesk_backend.Store.{Uid, Text, Action, ◌>>=◌, pure}
use towerdesk_backend.Scope.{AuthenticatedUser}
use towerdesk_backend.Auth.Service.{JwtPayload}
use towerdesk_backend.Auth.Validation.{
  RawValue, text_value, array_value, parse_org_id_override, validate_payload,
}

-- The header `x-org-id`, or its first value where it has several, if it is not empty.
abbrev pub header_text : RawValue → Option Text
header_text (text_value raw) = if is_empty raw then none else some raw
header_text (array_value (some raw)) = if is_empty raw then none else some raw
header_text _ = none

-- `id_of_text` reads the id that a text is.
module _ (id_of_text : Text → Uid) where
  -- `getOrgIdOverride`
  unfoldable pub get_org_id_override : RawValue → Action (Option Uid)
  unfolding parse_org_id_override
  get_org_id_override header = elim (header_text header) [
    | none ↦ pure none
    | some raw ↦ do
      parsed ← parse_org_id_override (text_value raw)
      pure (elim parsed [ none ↦ none | some text ↦ some (id_of_text text) ])
  ]

  -- `validate`
  unfoldable pub validate : RawValue → JwtPayload → Action AuthenticatedUser
  unfolding get_org_id_override validate_payload
  validate header payload = do
    override ← get_org_id_override header
    validate_payload payload override
