-- ===== src/Directory.antt =====
-- What the booking code reads of its neighbours: the rows of modules/employees, modules/services,
-- modules/customers, modules/salon and modules/tenants, with the queries of their repositories. A
-- `where` clause is a test on rows; a table stands in the order that the query's `orderBy` asks for.
-- Columns that booking does not read are left out.
pub mod Settings
use kapis_receptionist.Prelude.{
  ℕ, Bool, ◌&&◌, not, true, false, Option, List, map, ◌==◌, is_key, keep, find, includes, String,
}
use Settings.{Fields}

pub data EmployeeStatus : Type 0 where
  active on_leave inactive : EmployeeStatus

pub record Employee : Type 0 where
  pub id : ℕ
  pub tenant_id : ℕ
  pub user_id : Option ℕ
  pub first_name : String
  pub last_name : String
  pub status : EmployeeStatus
  pub deleted : Bool  -- `deletedAt` is set

-- A row of the junction table `employee_services`.
pub record EmployeeService : Type 0 where
  pub tenant_id : ℕ
  pub employee_id : ℕ
  pub service_id : ℕ

pub record Service : Type 0 where
  pub id : ℕ
  pub tenant_id : ℕ
  pub name : String
  pub duration_minutes : ℕ
  pub buffer_time_minutes : ℕ
  pub price_cents : ℕ
  pub currency : String
  pub deleted : Bool

pub record Customer : Type 0 where
  pub id : ℕ
  pub tenant_id : ℕ
  pub deleted : Bool

pub record BusinessHours : Type 0 where
  pub tenant_id : ℕ
  pub day_of_week : ℕ
  pub start_time : ℕ
  pub end_time : ℕ
  pub is_closed : Bool

pub record Holiday : Type 0 where
  pub id : ℕ
  pub tenant_id : ℕ
  pub date : ℕ
  pub reason : String

pub record WorkingHours : Type 0 where
  pub tenant_id : ℕ
  pub employee_id : ℕ
  pub day_of_week : ℕ
  pub start_time : ℕ
  pub end_time : ℕ
  pub is_active : Bool

pub record EmployeeTimeOff : Type 0 where
  pub id : ℕ
  pub tenant_id : ℕ
  pub employee_id : ℕ
  pub start_date : ℕ
  pub end_date : ℕ

pub record Directory : Type 0 where
  pub employees : List Employee
  pub employee_services : List EmployeeService
  pub services : List Service
  pub customers : List Customer
  pub business_hours : List BusinessHours
  pub holidays : List Holiday
  pub working_hours : List WorkingHours
  pub time_off : List EmployeeTimeOff
  pub business_settings : ℕ → Fields  -- `TenantSettings.business` of a tenant

abbrev pub is_active_status : EmployeeStatus → Bool
is_active_status active = true
is_active_status on_leave = false
is_active_status inactive = false

-- `EmployeeService.getEmployee`, with its throw as `none`
unfoldable pub find_employee : Directory → ℕ → ℕ → Option Employee
unfolding find
find_employee d tenant id =
    find (λ e. e.id == id && (not e.deleted && e.tenant_id == tenant)) d.employees

-- `EmployeeService.findByUserId`
unfoldable pub find_employee_by_user : Directory → ℕ → ℕ → Option Employee
unfolding find
find_employee_by_user d tenant user =
    find (λ e. is_key e.user_id user && (not e.deleted && e.tenant_id == tenant)) d.employees

-- `EmployeeAssignmentService.getServiceIdsForEmployee`
unfoldable pub service_ids_for_employee : Directory → ℕ → ℕ → List ℕ
unfolding keep
service_ids_for_employee d tenant employee =
    map (λ r. r.service_id)
      (keep (λ r. r.tenant_id == tenant && r.employee_id == employee) d.employee_services)

-- `EmployeeAssignmentService.getEmployeeIdsForService`
unfoldable pub employee_ids_for_service : Directory → ℕ → ℕ → List ℕ
unfolding keep
employee_ids_for_service d tenant service =
    map (λ r. r.employee_id)
      (keep (λ r. r.tenant_id == tenant && r.service_id == service) d.employee_services)

-- `ServiceService.findByIdsForTenant`
unfoldable pub services_by_ids : Directory → ℕ → List ℕ → List Service
unfolding keep includes
services_by_ids d tenant ids =
    keep (λ s. includes s.id ids && (not s.deleted && s.tenant_id == tenant)) d.services

-- `CustomerService.findByIdsForTenant`
unfoldable pub customers_by_ids : Directory → ℕ → List ℕ → List Customer
unfolding keep includes
customers_by_ids d tenant ids =
    keep (λ c. includes c.id ids && (not c.deleted && c.tenant_id == tenant)) d.customers

-- `HolidayService.listHolidays`
unfoldable pub list_holidays : Directory → ℕ → List Holiday
unfolding keep
list_holidays d tenant = keep (λ h. h.tenant_id == tenant) d.holidays

-- `WorkingHoursService.getWorkingHours`
unfoldable pub get_working_hours : Directory → ℕ → ℕ → List WorkingHours
unfolding keep
get_working_hours d tenant employee =
    keep (λ w. w.tenant_id == tenant && w.employee_id == employee) d.working_hours

-- `EmployeeTimeOffService.listTimeOff`
unfoldable pub list_time_off : Directory → ℕ → ℕ → List EmployeeTimeOff
unfolding keep
list_time_off d tenant employee =
    keep (λ t. t.tenant_id == tenant && t.employee_id == employee) d.time_off
