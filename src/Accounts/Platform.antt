-- ===== src/Accounts/Platform.antt =====
-- platform-orgs.service.ts and org-profile.service.ts.
use towerdesk_backend.Common.{
  ℕ, Bool, true, Option, none, some, List, [], ◌∷◌, ◌++◌, ◌==◌, nat_eq, string_eq, find, update,
  leb, sort_by, is_some, or_default,
}
use towerdesk_backend.Store.{
  Uid, Time, Text, Db, Action, ◌>>=◌, ◌>>◌, pure, gets, modify, or_throw, throw_if, not_found,
  bad_request, conflict,
}
use towerdesk_backend.Store.Estate.{OrgBusinessType, OrgProfile, Org}
use towerdesk_backend.Access.{find_role_by_key}
use towerdesk_backend.Org.{find_user_by_email, create_user, create_user_role}
use towerdesk_backend.Auth.{Crypto}
use towerdesk_backend.Accounts.Members.{CreatedUser, temp_user, shown_password}

abbrev pub later_org : Org → Org → Bool
later_org a b = leb b.created_at a.created_at

-- `listOrgs`
unfoldable pub list_orgs : Action (List Org)
list_orgs = gets (λ db. sort_by later_org db.orgs)

-- `findOrgById`
unfoldable pub find_org : Uid → Db → Option Org
find_org org_id db = find (λ (o : Org). o.id == org_id) db.orgs

-- `create`, whose `CreateOrgDto` has no logo
unfoldable pub create_org : Uid → Time → OrgProfile → Action Org
create_org id now dto = do
  let row : Org = record { id = id; profile = record dto { logo_url = none }; created_at = now }
  modify (λ db. record db { orgs = db.orgs ++ row ∷ [] })
  pure row

pub record CreateOrgAdminDto : Type 0 where
  pub email : Uid
  pub name : Option Text
  pub password : Option Text

-- `createOrgAdmin`: three writes and reads, and no transaction
unfoldable pub create_org_admin :
    Crypto → ℕ → Uid → Text → Uid → CreateOrgAdminDto → Action CreatedUser
unfolding find_org find_user_by_email create_user find_role_by_key create_user_role
create_org_admin crypto nonce id temp org_id dto = do
  or_throw (← gets (find_org org_id)) (not_found "Org not found")
  throw_if (is_some (← gets (find_user_by_email dto.email))) (conflict "Email already in use")
  let password = or_default dto.password temp
  user ← create_user (temp_user crypto nonce id dto.email dto.name password org_id)
  role ←
      or_throw (← gets (find_role_by_key "org_admin")) (bad_request "ORG_ADMIN role not configured")
  create_user_role (record { user_id = user.id; role_id = role.id })
  pure (record {
    user_id = user.id;
    email = user.email;
    temp_password = shown_password dto.password temp;
    must_change_password = true;
  })

-- `OrgProfileService.getProfile`
unfoldable pub get_profile : Uid → Action Org
unfolding find_org
get_profile org_id = gets (find_org org_id) >>= λ org. or_throw org (not_found "Org not found")

-- `UpdateOrgProfileDto`: what is absent is `undefined`, which Prisma leaves as it is.
pub record UpdateOrgProfileDto : Type 0 where
  pub name : Option Text
  pub logo_url : Option Text
  pub business_name : Option Text
  pub business_type : Option OrgBusinessType
  pub trade_license_number : Option Text
  pub vat_registration_number : Option Text
  pub registered_office_address : Option Text
  pub city : Option Text
  pub office_phone_number : Option Text
  pub business_email_address : Option Text
  pub website : Option Text
  pub owner_name : Option Text

abbrev pub or_old : {A : Type 0} → Option A → Option A → Option A
or_old none old = old
or_old (some value) old = some value

unfoldable pub patch_profile : UpdateOrgProfileDto → OrgProfile → OrgProfile
patch_profile d p = record {
  name = or_default d.name p.name;
  logo_url = or_old d.logo_url p.logo_url;
  business_name = or_old d.business_name p.business_name;
  business_type = or_old d.business_type p.business_type;
  trade_license_number = or_old d.trade_license_number p.trade_license_number;
  vat_registration_number = or_old d.vat_registration_number p.vat_registration_number;
  registered_office_address = or_old d.registered_office_address p.registered_office_address;
  city = or_old d.city p.city;
  office_phone_number = or_old d.office_phone_number p.office_phone_number;
  business_email_address = or_old d.business_email_address p.business_email_address;
  website = or_old d.website p.website;
  owner_name = or_old d.owner_name p.owner_name;
}

abbrev pub patch_org : UpdateOrgProfileDto → Org → Org
patch_org dto o = record o { profile = patch_profile dto o.profile }

-- `OrgProfileService.updateProfile`
unfoldable pub update_org_profile : Uid → UpdateOrgProfileDto → Action Org
unfolding find_org patch_profile
update_org_profile org_id dto = do
  org ← or_throw (← gets (find_org org_id)) (not_found "Org not found")
  modify (λ db. record db { orgs = update (λ (o : Org). o.id) org_id (patch_org dto) db.orgs })
  pure (patch_org dto org)
