-- ===== src/Auth/Permissions.antt =====
-- core/auth/permissions.py: the permissions, and the bundles of the system roles. The tuples are
-- sorted there; the lists here stand in the order of the source before the sorting.
use tgc_bus_core.Base.{String, List, [], ◌∷◌}

abbrev pub all_permissions : List String
all_permissions =
    "admin.config" ∷ "admin.users" ∷ "audit.read" ∷ "backup.export" ∷ "backup.restore"
    ∷ "contacts.read" ∷ "contacts.write" ∷ "finance.read" ∷ "finance.write" ∷ "inventory.read"
    ∷ "inventory.write" ∷ "invoices.read" ∷ "invoices.write" ∷ "jobs.read" ∷ "jobs.write"
    ∷ "logs.read" ∷ "manufacturing.read" ∷ "manufacturing.run" ∷ "recipes.read" ∷ "recipes.write"
    ∷ "settings.manage" ∷ "settings.read" ∷ "sessions.manage" ∷ "system.admin" ∷ "system.read"
    ∷ "system.restart" ∷ "updates.check" ∷ "updates.stage" ∷ "users.manage" ∷ "users.read" ∷ []

abbrev pub owner_role_key : String
owner_role_key = "owner"

abbrev pub owner_permissions : List String
owner_permissions = all_permissions

abbrev pub operator_permissions : List String
operator_permissions =
    "backup.export" ∷ "contacts.read" ∷ "contacts.write" ∷ "finance.read" ∷ "inventory.read"
    ∷ "inventory.write" ∷ "invoices.read" ∷ "invoices.write" ∷ "jobs.read" ∷ "jobs.write"
    ∷ "logs.read" ∷ "manufacturing.read" ∷ "manufacturing.run" ∷ "recipes.read" ∷ "recipes.write"
    ∷ "system.read" ∷ "updates.check" ∷ []

abbrev pub viewer_permissions : List String
viewer_permissions =
    "finance.read" ∷ "inventory.read" ∷ "invoices.read" ∷ "contacts.read" ∷ "jobs.read"
    ∷ "logs.read" ∷ "manufacturing.read" ∷ "recipes.read" ∷ "settings.read" ∷ "system.read"
    ∷ "updates.check" ∷ []

unfoldable pub default_role_bundles : List (String × List String)
default_role_bundles =
    (owner_role_key, owner_permissions)
    ∷ ("operator", operator_permissions)
    ∷ ("viewer", viewer_permissions)
    ∷ []
