-- ===== src/Store/Estate.antt =====
-- The rows of organisations, and of what units consist of.
use towerdesk_backend.Common.{Bool, Option}
use towerdesk_backend.Store.Rows.{Uid, Time, Text}

pub data OrgBusinessType : Type 0 where
  owner property_management facility_management developer : OrgBusinessType

-- The columns that the profile of an organisation shows.
pub record OrgProfile : Type 0 where
  pub name : Text
  pub logo_url : Option Text
  pub business_name : Option Text
  pub business_type : Option OrgBusinessType
  pub trade_license_number : Option Text
  pub vat_registration_number : Option Text
  pub registered_office_address : Option Text
  pub city : Option Text
  pub office_phone_number : Option Text
  pub business_email_address : Option Text
  pub website : Option Text
  pub owner_name : Option Text

pub record Org : Type 0 where
  pub id : Uid
  pub profile : OrgProfile
  pub created_at : Time

pub record BuildingAmenity : Type 0 where
  pub id : Uid
  pub building_id : Uid
  pub name : Text
  pub is_active : Bool
  pub is_default : Bool
  pub created_at : Time

pub record UnitAmenity : Type 0 where
  pub unit_id : Uid
  pub amenity_id : Uid

pub record UnitType : Type 0 where
  pub id : Uid
  pub org_id : Uid
  pub name : Text
  pub is_active : Bool
  pub created_at : Time

pub record Owner : Type 0 where
  pub id : Uid
  pub org_id : Uid
  pub name : Text
  pub email : Option Text
  pub phone : Option Text
  pub address : Option Text
  pub created_at : Time
