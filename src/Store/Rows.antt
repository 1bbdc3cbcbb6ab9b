-- ===== src/Store/Rows.antt =====
-- The rows of prisma/schema.prisma, with the columns that the services read or write.
use towerdesk_backend.Common.{
  ℕ, String, ◌≡◌, ◌↔◌, Bool, Option, List, Eq, nat_beq, arith, true, false,
}

-- A UUID, or an email address: a string that is compared and tested for being empty. The number
-- stands for the string, 0 for the empty one.
abbrev pub Uid : Type 0
Uid = ℕ

-- Milliseconds, as in `Date`.
abbrev pub Time : Type 0
Time = ℕ

-- A string that is read: its UTF-16 code units.
abbrev pub Text : Type 0
Text = List ℕ

pub data Status : Type 0 where
  open_ assigned in_progress completed canceled : Status

pub data AssignmentType : Type 0 where
  manager staff building_admin : AssignmentType

pub data OccupancyStatus : Type 0 where
  active ended : OccupancyStatus

pub data Effect : Type 0 where
  allow deny : Effect

pub data Priority : Type 0 where
  low normal high : Priority

pub data RequestType : Type 0 where
  cleaning electrical maintenance plumbing_ac_heating other : RequestType

abbrev pub status_rank : Status → ℕ
status_rank open_ = 0
status_rank assigned = 1
status_rank in_progress = 2
status_rank completed = 3
status_rank canceled = 4

abbrev pub status_beq : Status → Status → Bool
status_beq a b = nat_beq (status_rank a) (status_rank b)

pub status_beq_iff : (a b : Status) → (status_beq a b ≡ true) ↔ (a ≡ b)
status_beq_iff a b = ground arith

instance abbrev pub status_eq : Eq Status
status_eq = record { beq = status_beq; beq_iff = status_beq_iff }

abbrev pub type_rank : AssignmentType → ℕ
type_rank manager = 0
type_rank staff = 1
type_rank building_admin = 2

abbrev pub type_beq : AssignmentType → AssignmentType → Bool
type_beq a b = nat_beq (type_rank a) (type_rank b)

pub type_beq_iff : (a b : AssignmentType) → (type_beq a b ≡ true) ↔ (a ≡ b)
type_beq_iff a b = ground arith

instance abbrev pub type_eq : Eq AssignmentType
type_eq = record { beq = type_beq; beq_iff = type_beq_iff }

abbrev pub is_active_status : OccupancyStatus → Bool
is_active_status active = true
is_active_status ended = false

pub record User : Type 0 where
  pub id : Uid
  pub email : Uid
  pub password_hash : Text
  pub refresh_token_hash : Option Text
  pub name : Option Text
  pub avatar_url : Option Text
  pub phone : Option Text
  pub org_id : Option Uid
  pub must_change_password : Bool
  pub is_active : Bool

-- The columns of a building that only its own controller reads.
pub record BuildingProfile : Type 0 where
  pub name : Text
  pub city : Text
  pub emirate : Option Text
  pub country : Text
  pub timezone : Text
  pub floors : Option ℕ
  pub units_count : Option ℕ
  pub created_at : Time

pub record Building : Type 0 where
  pub id : Uid
  pub org_id : Uid
  pub profile : BuildingProfile

pub data MaintenancePayer : Type 0 where
  by_owner by_tenant : MaintenancePayer

pub data UnitSizeUnit : Type 0 where
  sq_ft sq_m : UnitSizeUnit

pub data KitchenType : Type 0 where
  open_kitchen closed_kitchen : KitchenType

pub data FurnishedStatus : Type 0 where
  unfurnished semi_furnished fully_furnished : FurnishedStatus

pub data PaymentFrequency : Type 0 where
  monthly quarterly semi_annual : PaymentFrequency

-- The columns of a unit that nothing tests. A `Decimal(12, 2)` is a number of hundredths, and no
-- number is negative.
pub record UnitDetails : Type 0 where
  pub floor : Option ℕ
  pub notes : Option Text
  pub maintenance_payer : Option MaintenancePayer
  pub unit_size : Option ℕ
  pub unit_size_unit : Option UnitSizeUnit
  pub bedrooms : Option ℕ
  pub bathrooms : Option ℕ
  pub balcony : Option Bool
  pub kitchen_type : Option KitchenType
  pub furnished_status : Option FurnishedStatus
  pub rent_annual : Option ℕ
  pub payment_frequency : Option PaymentFrequency
  pub security_deposit_amount : Option ℕ
  pub service_charge_per_unit : Option ℕ
  pub vat_applicable : Option Bool
  pub electricity_meter_number : Option Text
  pub water_meter_number : Option Text
  pub gas_meter_number : Option Text

pub record UnitRow : Type 0 where
  pub id : Uid
  pub building_id : Uid
  pub label : Text
  pub unit_type_id : Option Uid
  pub owner_id : Option Uid
  pub details : UnitDetails
  pub created_at : Time

pub record BuildingAssignment : Type 0 where
  pub id : Uid
  pub building_id : Uid
  pub user_id : Uid
  pub type : AssignmentType

pub record Occupancy : Type 0 where
  pub id : Uid
  pub building_id : Uid
  pub unit_id : Uid
  pub resident_user_id : Uid
  pub status : OccupancyStatus
  pub end_at : Option Time
  pub created_at : Time

pub record MaintenanceRequest : Type 0 where
  pub id : Uid
  pub org_id : Uid
  pub building_id : Uid
  pub unit_id : Option Uid
  pub created_by_user_id : Uid
  pub title : Text
  pub description : Option Text
  pub status : Status
  pub type : Option RequestType
  pub priority : Option Priority
  pub assigned_to_user_id : Option Uid
  pub assigned_at : Option Time
  pub completed_at : Option Time
  pub canceled_at : Option Time
  pub created_at : Time

pub record RequestComment : Type 0 where
  pub id : Uid
  pub request_id : Uid
  pub org_id : Uid
  pub author_user_id : Uid
  pub message : Text
  pub created_at : Time

pub record RequestAttachment : Type 0 where
  pub request_id : Uid
  pub org_id : Uid
  pub uploaded_by_user_id : Uid
  pub file_name : Text
  pub mime_type : Text
  pub size_bytes : ℕ
  pub url : Text

pub record Role : Type 0 where
  pub id : Uid
  pub key : String
  pub name : Text
  pub description : Option Text
  pub is_system : Bool

pub record Permission : Type 0 where
  pub id : Uid
  pub key : String

pub record RolePermission : Type 0 where
  pub role_id : Uid
  pub permission_id : Uid

pub record UserRole : Type 0 where
  pub user_id : Uid
  pub role_id : Uid

pub record UserPermission : Type 0 where
  pub user_id : Uid
  pub permission_id : Uid
  pub effect : Effect
