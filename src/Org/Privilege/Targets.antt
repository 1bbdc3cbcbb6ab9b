-- ===== src/Org/Privilege/Targets.antt =====
-- The buildings that a request to provision is about.
use towerdesk_backend.Common.{
  Bool, true, false, not, ◌||◌, Option, none, some, List, [], ◌∷◌, map, ◌≡◌, refl, inl, inr, ◌==◌,
  nat_eq, string_eq, any, select, Option-cases, arith, is_empty, new_set, includes, has-new_set,
  beq_true, has-add,
}
use towerdesk_backend.Store.{Uid, type_eq}
use towerdesk_backend.Org.Provision.{
  dedupe_assignments, dedupe_from, same_grant, Grant, ResidentGrant, ProvisionUserDto,
  target_buildings,
}

-- A test that does not tell grants with the same key apart sees the same before and after.
module _ (p : Grant → Bool) (same : (g h : Grant) → same_grant g h ≡ true → p g ≡ p h) where
  any-seen :
      (g : Grant) (seen : List Grant)
      → any (same_grant g) seen ≡ true
      → p g ≡ true
      → any p seen ≡ true
  unfolding any
  any-seen g [] k t = ground arith
  any-seen g (h ∷ hs) k t = ground (arith, any-seen g hs, same g h)

  any-dedupe_from :
      (seen gs : List Grant)
      → (any p (dedupe_from seen gs) || any p seen) ≡ (any p gs || any p seen)
  unfolding any dedupe_from
  any-dedupe_from seen [] = refl
  any-dedupe_from seen (g ∷ gs) =
      ground (arith, any-seen g seen, any-dedupe_from seen gs, any-dedupe_from (g ∷ seen) gs)

  pub any-dedupe : (gs : List Grant) → any p (dedupe_assignments gs) ≡ any p gs
  unfolding dedupe_assignments any
  any-dedupe gs = ground (arith, any-dedupe_from [] gs)

any-grants :
    (b : Uid) (gs : List Grant)
    → any (λ g. g.building_id == b) gs ≡ includes (map (λ (g : Grant). g.building_id) gs) b
unfolding any includes
any-grants b [] = refl
any-grants b (g ∷ gs) =
    ground (arith, any-grants b gs, beq_true b g.building_id, beq_true g.building_id b)

pub all_managed :
    (p : Uid → Bool) (ids : List Uid) (b : Uid)
    → is_empty (select (λ id. not (p id)) ids) ≡ true
    → includes ids b ≡ true
    → p b ≡ true
unfolding select includes
all_managed p [] b h k = ground arith
all_managed p (i ∷ ids) b h k = ground (arith, all_managed p ids b, beq_true b i)

-- The buildings that a request to provision is about.
abbrev pub concerns : ProvisionUserDto → Uid → Bool
concerns dto b =
    any (λ (g : Grant). g.building_id == b) dto.building_assignments || lives_in b dto.resident
  where
    lives_in : Uid → Option ResidentGrant → Bool
    lives_in b none = false
    lives_in b (some g) = g.building_id == b

pub targets_lem :
    (dto : ProvisionUserDto) (b : Uid)
    → includes (target_buildings (dedupe_assignments dto.building_assignments) dto.resident) b
      ≡ concerns dto b
unfolding target_buildings
targets_lem dto b = elim (Option-cases dto.resident) [
  | inl n ↦ ground (
    arith,
    any-grants b (dedupe_assignments dto.building_assignments),
    has-new_set (map (λ (g : Grant). g.building_id) (dedupe_assignments dto.building_assignments))
        b,
    any-dedupe (λ g. g.building_id == b)
        (λ g h e. ground (arith, beq_true g.building_id h.building_id)) dto.building_assignments,
  )
  | inr (g, e) ↦ ground (
    arith,
    any-grants b (dedupe_assignments dto.building_assignments),
    has-new_set (map (λ (g : Grant). g.building_id) (dedupe_assignments dto.building_assignments))
        b,
    has-add g.building_id
        (new_set (map (λ (g : Grant). g.building_id) (dedupe_assignments dto.building_assignments)))
        b,
    any-dedupe (λ g. g.building_id == b)
        (λ g h e. ground (arith, beq_true g.building_id h.building_id)) dto.building_assignments,
    beq_true b g.building_id,
    beq_true g.building_id b,
  )
]
