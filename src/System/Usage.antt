-- ===== src/System/Usage.antt =====
-- What a tenant uses (system-admin.service.ts, `tenantUsage`, `usage`). Vendors and asset documents are
-- collections of their own; `EntitlementService.getNumber` is a parameter, which may throw. Storage is in
-- bytes, and its quota in units of 1024 ^ 3 of them.
use asset_hub.Prelude.{
  ℕ, ◌+◌, ◌*◌, ◌≡◌, refl, Option, none, some, Bool, false, List, [], ◌∷◌, ◌==◌, length, any, map,
  String, arith, if◌then◌else◌,
}
use asset_hub.Prelude.Members.{has}
use asset_hub.Prelude.Collection.{All, find_all, count_where}
use asset_hub.Prelude.Action.{Result, ok, err}
use asset_hub.Models.{Db, Plant, Location}
use asset_hub.System.Tenants.{tenant_user}
use asset_hub.System.Quota.{Severity, percent, severity}

pub record Vendor : Type 0 where
  pub company_id : ℕ

pub record AssetDocument : Type 0 where
  pub tenant_id : ℕ
  pub size_bytes : ℕ

pub record Files : Type 0 where
  pub vendors : List Vendor
  pub documents : List AssetDocument

pub record Usage : Type 0 where
  pub users : ℕ
  pub assets : ℕ
  pub companies : ℕ
  pub business_units : ℕ
  pub plants : ℕ
  pub locations : ℕ
  pub departments : ℕ
  pub vendors : ℕ
  pub asset_documents : ℕ
  pub storage_bytes : ℕ

unfoldable pub total_bytes : List AssetDocument → ℕ
total_bytes [] = 0
total_bytes (d ∷ ds) = d.size_bytes + total_bytes ds

abbrev pub in_units : List ℕ → Plant → Bool
in_units ids p = elim p.business_unit_id [ none ↦ false | some b ↦ has b ids ]

abbrev pub plant_ids : List ℕ → List Plant → List ℕ
plant_ids unit_ids plants = map (λ p. p.id) (find_all (in_units unit_ids) plants)

abbrev pub location_ids : List ℕ → List Location → List ℕ
location_ids ids locations = map (λ l. l.id) (find_all (λ l. has l.plant_id ids) locations)

-- `{ $in: [] }` matches nothing, so that the tests for an empty list change nothing.
unfoldable pub tenant_usage : ℕ → Db → Files → Usage
unfolding total_bytes
tenant_usage tenant_id db files =
    let companies = map (λ c. c.id) (find_all (λ c. c.tenant_id == tenant_id) db.companies) in
    let units = map (λ b. b.id) (find_all (λ b. has b.company_id companies) db.business_units) in
    let plants = plant_ids units db.plants in
    let locations = location_ids plants db.locations in
    record {
      users = count_where (tenant_user tenant_id) db.users;
      assets = count_where (λ a. a.tenant_id == tenant_id) db.assets;
      companies = length companies;
      business_units = count_where (λ b. has b.company_id companies) db.business_units;
      plants = count_where (λ p. has p.id plants) db.plants;
      locations = count_where (λ l. has l.id locations) db.locations;
      departments = count_where (λ d. has d.location_id locations) db.departments;
      vendors = count_where (λ v. has v.company_id companies) files.vendors;
      asset_documents = count_where (λ d. d.tenant_id == tenant_id) files.documents;
      storage_bytes = total_bytes (find_all (λ d. d.tenant_id == tenant_id) files.documents);
    }

pub record QuotaRow : Type 0 where
  pub key : String
  -- In units of the quota.
  pub used : ℕ
  pub unit : ℕ
  pub limit : Option ℕ
  pub percent : Option ℕ
  pub severity : Severity

abbrev times : ℕ → Option ℕ → Option ℕ
times unit none = none
times unit (some limit) = some (limit * unit)

-- One entry of `quota`: the ratio of the used units to the limit is that of `used` to `limit * unit`, in
-- doubles too, since the unit is a power of two.
unfoldable pub quota_row : (ℕ → ℕ → ℕ) → String → ℕ → ℕ → Result (Option ℕ) → QuotaRow
quota_row rounded_ratio key used unit (ok limit) = record {
  key = key;
  used = used;
  unit = unit;
  limit = limit;
  percent = percent rounded_ratio used (times unit limit);
  severity = severity (percent rounded_ratio used (times unit limit));
}
quota_row rounded_ratio key used unit (err e) = record {
  key = key;
  used = used;
  unit = 1;
  limit = none;
  percent = none;
  severity = Severity.unavailable;
}

-- `quotaKeys`: the key of a quota, what it counts, and its unit.
abbrev pub quota_keys : Usage → List (String × ℕ × ℕ)
quota_keys u =
    ("max_users", u.users, 1)
    ∷ ("max_assets", u.assets, 1)
    ∷ ("max_companies", u.companies, 1)
    ∷ ("max_business_units", u.business_units, 1)
    ∷ ("max_plants", u.plants, 1)
    ∷ ("max_locations", u.locations, 1)
    ∷ ("max_departments", u.departments, 1)
    ∷ ("max_vendors", u.vendors, 1)
    ∷ ("max_asset_documents", u.asset_documents, 1)
    ∷ ("max_storage_gb", u.storage_bytes, 1073741824)
    ∷ []

-- `quota`, which is empty for a tenant without a subscription.
unfoldable pub quota :
    (ℕ → ℕ → ℕ) → (ℕ → String → Result (Option ℕ)) → ℕ → Db → Files → List QuotaRow
unfolding tenant_usage quota_row
quota rounded_ratio get_number tenant_id db files =
    if any (λ s. s.tenant_id == tenant_id) db.subscriptions
    then map (λ q. quota_row rounded_ratio q.0 q.1 q.2 (get_number tenant_id q.0))
        (quota_keys (tenant_usage tenant_id db files))
    else []

-- `usage` without a tenant: a row for each tenant, before the sort by name.
unfoldable pub usage_of_all : Db → Files → List (Usage × ℕ)
unfolding tenant_usage
usage_of_all db files = map (λ t. (tenant_usage t.id db files, t.id)) db.tenants

none_in_units :
    (ids : List ℕ) (plants : List Plant)
    → All (λ p. p.business_unit_id ≡ none) plants
    → plant_ids ids plants ≡ []
none_in_units ids [] a = refl
none_in_units ids (p ∷ ps) a = ground (arith, none_in_units ids ps a.1, a.0)

count_none : {A : Type 0} (xs : List A) → count_where (λ _. false) xs ≡ 0
count_none [] = refl
count_none (x ∷ xs) = count_none xs

no_locations : (xs : List Location) → location_ids [] xs ≡ []
no_locations [] = refl
no_locations (x ∷ xs) = no_locations xs

-- A site that was written without a business unit, as the schema of sites has it, does not count: where
-- all sites are such, the usage of every tenant has no site, no location and no department.
pub usage_misses_sites :
    (tenant_id : ℕ) (db : Db) (files : Files)
    → All (λ p. p.business_unit_id ≡ none) db.plants
    → ((tenant_usage tenant_id db files).plants ≡ 0)
      × ((tenant_usage tenant_id db files).locations ≡ 0)
      × ((tenant_usage tenant_id db files).departments ≡ 0)
unfolding tenant_usage
usage_misses_sites tenant_id db files a =
    let companies = map (λ c. c.id) (find_all (λ c. c.tenant_id == tenant_id) db.companies) in
    let units = map (λ b. b.id) (find_all (λ b. has b.company_id companies) db.business_units) in
    rw (none_in_units units db.plants a, no_locations db.locations)
      (count_none db.plants, count_none db.locations, count_none db.departments)
