-- ===== src/Permissions/Registry.antt =====
-- `PERMISSIONS` and `MEMBER_DEFAULT_PERMISSIONS` of backend/app/permissions.py.
use bolodb.Prelude.{List, [], ◌∷◌, String}
use bolodb.Prelude.Dict.{Dict}

pub record Permission : Type 0 where
  pub name : String
  pub category : String
  pub description : String
  pub default_roles : List String

unfoldable pub everyone : List String
everyone = "owner" ∷ "admin" ∷ "member" ∷ []

unfoldable pub admins : List String
admins = "owner" ∷ "admin" ∷ []

permission : String → String → String → String → List String → String × Permission
permission key name category description default_roles = (
  key,
  record {
    name = name;
    category = category;
    description = description;
    default_roles = default_roles;
  },
)

unfoldable pub permissions : Dict Permission
unfolding permission everyone admins
permissions =
    permission "members.view" "View Members" "members"
      "View workspace member list and member details" everyone
    ∷ permission "members.invite" "Invite Members" "members"
        "Invite new members to join the workspace" admins
    ∷ permission "members.update_role" "Update Member Roles" "members"
        "Change roles of workspace members" admins
    ∷ permission "members.remove" "Remove Members" "members" "Remove members from the workspace"
        admins
    ∷ permission "connections.view" "View Connections" "connections"
        "View configured database connections" everyone
    ∷ permission "connections.manage" "Manage Connections" "connections"
        "Create, edit, or delete database connections" admins
    ∷ permission "connections.view_schema" "View Connection Schema" "connections"
        "View schema and metadata for database connections" everyone
    ∷ permission "catalog.view" "View Catalog" "catalog"
        "View data catalog, verified Q&A, and metrics" everyone
    ∷ permission "catalog.manage" "Manage Catalog" "catalog"
        "Create or update data catalog definitions" admins
    ∷ permission "dashboards.view" "View Dashboards" "dashboards"
        "View dashboards and visualization panels" everyone
    ∷ permission "dashboards.create" "Create Dashboards" "dashboards"
        "Create new dashboards and panels" admins
    ∷ permission "dashboards.manage" "Manage Dashboards" "dashboards"
        "Edit or delete existing dashboards" admins
    ∷ permission "queries.execute" "Execute Queries" "queries"
        "Execute natural language and SQL queries" everyone
    ∷ permission "queries.explain" "Explain Queries" "queries"
        "Generate query explanations and execution plans" everyone
    ∷ permission "queries.save" "Save Queries" "queries" "Save queries for workspace access"
        everyone
    ∷ permission "queries.delete_saved" "Delete Saved Queries" "queries" "Delete saved queries"
        admins
    ∷ permission "schedules.view" "View Schedules" "schedules"
        "View scheduled queries and their execution history" everyone
    ∷ permission "schedules.manage" "Manage Schedules" "schedules"
        "Create, edit, pause, run, and delete scheduled queries" admins
    ∷ permission "activity.view" "View Activity" "activity" "View workspace activity logs" admins
    ∷ permission "activity.export" "Export Activity" "activity" "Export workspace activity logs"
        admins
    ∷ permission "workspace.view" "View Workspace" "workspace_management"
        "View workspace details and configuration" everyone
    ∷ permission "workspace.update" "Update Workspace" "workspace_management"
        "Update workspace basic profile details" admins
    ∷ permission "workspace.settings" "Manage Workspace Settings" "workspace_management"
        "Manage workspace defaults and role permission matrix" admins
    ∷ []

unfoldable pub member_default_permissions : List String
member_default_permissions =
    "members.view" ∷ "connections.view" ∷ "connections.view_schema" ∷ "catalog.view"
    ∷ "dashboards.view" ∷ "queries.execute" ∷ "queries.explain" ∷ "queries.save" ∷ "schedules.view"
    ∷ "workspace.view" ∷ []
