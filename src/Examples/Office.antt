-- ===== src/Examples/Office.antt =====
-- Invoices and users of the shop's office.
use mathlib.Core.List.{mem-cons_self}
use tgc_bus_core.Base.{
  Bool, sum_by, ◌≤◌, ℕ, ◌≡◌, refl, String, true, false, none, some, List, [], ◌∷◌, mem_text, join,
  text_before,
}
use tgc_bus_core.Tables.{find_row, order_by}
use tgc_bus_core.Base.Int.{pos}
use tgc_bus_core.Decimal.{Number}
use tgc_bus_core.Effects.{ok, fresh}
use tgc_bus_core.InvoiceTables.{InvoiceLine, InvoiceStatus, Invoice, InvoiceDb, Database}
use tgc_bus_core.Decimal.{mul, fix, quantize, half_up}
use tgc_bus_core.Invoices.{
  generate_invoice_number, start_sequence, set_sequence, set_lines, sum_lines, price_line,
  line_subtotal_cents_of, of_column, validate_unit_price_cents, priced,
}
use tgc_bus_core.Invoices.Numbers.{generate_invoice_number_rises}
use tgc_bus_core.Invoices.Sums.{line_value, taxable_value, sum_lines_values}
use tgc_bus_core.Invoices.Frozen.{InvoiceOperation, serve, serve-IsPaid}
use tgc_bus_core.Invoices.Paid.{IsPaid}
use tgc_bus_core.Auth.{AuthUser, AuthSession, AuthDb}
use tgc_bus_core.Auth.Sessions.{session_is_valid, is_current}
use tgc_bus_core.Auth.Management.{is_owner, enabled_owner_user_ids, assert_not_last_enabled_owner}
use tgc_bus_core.Auth.Owners.{HasEnabledOwner, disable, assert_not_last_enabled_owner_leaves}
use tgc_bus_core.Auth.Dependencies.{
  AuthState, auth_user_count, require_permission, require_user, claimed_context, identify,
  valid_session, named_session, session_from_cookie, session_of_hash, context_of,
  roles_and_permissions, roles_of,
}
use tgc_bus_core.Auth.Access.{IsIdentified, require_permission_granted}
use tgc_bus_core.Examples.Shop.{env}

abbrev database : Database
database = record { env = env; refuse = λ d. none }

abbrev invoice : Invoice
invoice = record {
  id = 1;
  invoice_number = 1001;
  contact_id = 7;
  job_id = none;
  status = InvoiceStatus.paid;
  issue_date = some 50;
  due_date = none;
  paid_at = some 60;
  voided_at = none;
  tax_rate_basis_points = 1300;
  subtotal_cents = 1000;
  tax_cents = 130;
  total_cents = 1130;
  paid_cash_event_id = some 1;
  notes = none;
}

abbrev office : InvoiceDb
office = record {
  contacts = 7 ∷ [];
  items = [];
  recipes = [];
  jobs = [];
  job_lines = [];
  invoices = invoice ∷ [];
  lines = [];
  sequence = some 1002;
  cash_events = [];
}

abbrev requests : List InvoiceOperation
requests =
    InvoiceOperation.mark_void 1
    ∷ InvoiceOperation.create (record {
      contact_id = some 7;
      job_id = none;
      due_date = none;
      tax_rate_percent = some (Number.finite false 13 0);
      notes = none;
    })
    ∷ InvoiceOperation.issue 1 none
    ∷ []

serve-IsPaid_example : IsPaid 1 (serve database requests office)
serve-IsPaid_example =
    serve-IsPaid 1 database (λ d d' paid refused. cc) requests office
      (unfold find_row in (invoice, refl, refl))

abbrev pub owner : ℕ → AuthUser
owner id = record {
  id = id;
  username = "ann";
  username_norm = "ann";
  is_enabled = true;
  password_hash = "secret";
  must_change_password = false;
  last_login_at = none;
}

abbrev pub auth_session : AuthSession
auth_session = record {
  id = 5;
  user_id = 1;
  session_hash = "sha256-v1$x";
  created_at = some 1000;
  expires_at = some 9000;
  revoked_at = none;
  last_seen_at = none;
}

abbrev pub accounts : AuthDb
accounts = record {
  has_tables = true;
  users = owner 1 ∷ owner 2 ∷ [];
  roles = record { id = 1; key = "owner"; is_system = true } ∷ [];
  user_roles = record { user_id = 1; role_id = 1 } ∷ record { user_id = 2; role_id = 1 } ∷ [];
  role_permissions = [];
  sessions = auth_session ∷ [];
  recovery_codes = [];
  recovery_attempts = [];
  audit_events = [];
}

owner_enabled : HasEnabledOwner accounts
owner_enabled = (
  owner 1,
  mem-cons_self,
  refl,
  (
    record { user_id = 1; role_id = 1 },
    mem-cons_self,
    refl,
    (record { id = 1; key = "owner"; is_system = true }, mem-cons_self, refl, refl),
  ),
)

assert_not_last_enabled_owner_leaves_example : HasEnabledOwner (disable 1 accounts)
assert_not_last_enabled_owner_leaves_example =
    assert_not_last_enabled_owner_leaves 1 (fresh accounts)
      (unfold assert_not_last_enabled_owner enabled_owner_user_ids is_owner in refl) owner_enabled

digest : String → String
digest token = token

abbrev visit : AuthState
visit = record {
  db = accounts;
  request = record { cookie = some "x"; auth_mode = none; session_id = none; user_id = none };
}

require_permission_granted_example :
    (a : AuthSession) × (u : AuthUser) × IsIdentified digest 2000 accounts visit.request a u
    × (context_of digest 2000 accounts auth_session (owner 1) ≡ context_of digest 2000 accounts a u)
    × (mem_text "users.manage" (context_of digest 2000 accounts auth_session (owner 1)).permissions
        ≡ true)
require_permission_granted_example =
    require_permission_granted digest 2000 "users.manage" visit
      (context_of digest 2000 accounts auth_session (owner 1)) refl (unfold auth_user_count in refl)
      (unfold auth_user_count digest require_permission require_user claimed_context identify
          valid_session named_session session_from_cookie session_of_hash session_is_valid
          is_current context_of roles_and_permissions roles_of find_row order_by join text_before in
        refl)

first_number : (generate_invoice_number database (fresh office)).0 ≡ ok 1002
unfolding generate_invoice_number start_sequence set_sequence
first_number = refl

generate_invoice_number_rises_example :
    let t = (generate_invoice_number database (fresh office)).1 in
    (1001 ≤ 1002) × (1002 ≤ 1002) × (t.rows.sequence ≡ some 1003) × (t.flushed.sequence ≡ some 1003)
generate_invoice_number_rises_example =
    generate_invoice_number_rises database (fresh office) 1002 first_number

abbrev sold : Bool → InvoiceLine
sold taxable = record {
  id = 1;
  invoice_id = 1;
  job_line_id = none;
  item_id = none;
  line_type = "product";
  description = "frame";
  quantity_decimal = some (Number.finite false 25 1);
  uom = some "ea";
  unit_price_cents = some (pos 300);
  taxable = taxable;
  line_subtotal_cents = 0;
  sort_order = pos 0;
}

sum_lines_values_example :
    (1500 ≡ sum_by line_value (sold true ∷ sold false ∷ []))
    × (750 ≡ sum_by taxable_value (sold true ∷ sold false ∷ []))
sum_lines_values_example = sum_lines_values (sold true ∷ sold false ∷ []) (fresh office) 1500 750 (
    unfold sum_lines price_line set_lines line_subtotal_cents_of of_column validate_unit_price_cents
      priced mul fix quantize half_up in
    refl)
