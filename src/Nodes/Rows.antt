-- ===== src/Nodes/Rows.antt =====
-- The rows of internal/postgres/store.go: the tables, the conditions of the statements, and the constraints
-- of migrations/0001_foundation.sql and 0002_node_isolation.sql.
use goreecloud_drive.Prelude.{
  Bool, true, false, not, ◌&&◌, ◌||◌, Option, none, some, List, [], ◌∷◌, if◌then◌else◌,
}
use goreecloud_drive.Prelude.Text.{Str, ◌==◌}
use goreecloud_drive.Errors.{Error, is, text, Result, ok, err, not_member, node_not_found}
use goreecloud_drive.Sql.{Outcome, fine, refused, lost}
use goreecloud_drive.Wardveil.Types.{Time}
use goreecloud_drive.SpaceAccess.{MembershipResolver}
use goreecloud_drive.Nodes.{Node}

-- A row of `nodes`
pub record NodeRow : Type 0 where
  pub id : Str
  pub space_id : Str
  pub parent_id : Option Str
  pub kind : Str
  pub name : Str
  pub created_by : Str
  pub created_at : Time
  pub modified_at : Time
  pub trashed_at : Option Time

-- The table, and for each statement to come its outcome and its time.
pub record NodeTable : Type 0 where
  pub nodes : List NodeRow
  pub schedule : List (Outcome × Time)

unfoldable pub next_statement : NodeTable → Outcome × Time × NodeTable
next_statement t = elim t.schedule [
  | [] ↦ (fine, 0, t)
  | (o, now) ∷ later ↦ (o, now, record t { schedule = later })
]

pub record NodeDatabase : Type 0 where
  pub uuid_in : Str → Option Str
  pub name_fits : Str → Bool
  pub ordered : List NodeRow → List NodeRow
  pub format_time : Time → Str

abbrev pub database_error : Error
database_error = text "database error"

-- `RoleForAccount` over the rows of `space_memberships`: the role of a Space and an account. The
-- Boolean is that the store is there.
unfoldable pub role_for_account :
    (Str → Option Str) → Bool → Outcome → (Str → Str → Option Str) → MembershipResolver
role_for_account uuid_in connected outcome memberships account_id space_id =
    if not connected then err (is not_member) else elim outcome [
      | refused ↦ err database_error
      | lost ↦ err database_error
      | fine ↦ elim (uuid_in space_id) [
        | none ↦ err database_error
        | some space ↦ elim (uuid_in account_id) [
          | none ↦ err database_error
          | some account ↦ elim (memberships space account) [
            | none ↦ err (is not_member)
            | some role ↦ ok role
          ]
        ]
      ]
    ]

-- `trashed_at IS NULL`
abbrev pub is_live : NodeRow → Bool
is_live row = elim row.trashed_at [ none ↦ true | some _ ↦ false ]

-- A comparison of two values that may be NULL, as the conditions of the statements make it.
unfoldable pub same_parent : Option Str → Option Str → Bool
same_parent none none = true
same_parent none (some q) = false
same_parent (some p) none = false
same_parent (some p) (some q) = p == q

-- id = $1 AND space_id = $2 AND trashed_at IS NULL
unfoldable pub is_target : Str → Str → NodeRow → Bool
is_target space id row = is_live row && (row.id == id && row.space_id == space)

unfoldable pub find_target : Str → Str → List NodeRow → Option NodeRow
find_target space id [] = none
find_target space id (row ∷ rows) =
    if is_target space id row then some row else find_target space id rows

-- WHERE of the listing
unfoldable pub in_folder : Str → Option Str → NodeRow → Bool
in_folder space parent row =
    is_live row && (row.space_id == space && same_parent parent row.parent_id)

unfoldable pub select_rows : (NodeRow → Bool) → List NodeRow → List NodeRow
select_rows test [] = []
select_rows test (row ∷ rows) =
    let rest = select_rows test rows in if test row then row ∷ rest else rest

-- The constraints: the primary key, the foreign key of a parent in its Space, and the unique names of
-- live siblings (of other rows than `id`).
unfoldable pub has_id : Str → List NodeRow → Bool
has_id id [] = false
has_id id (row ∷ rows) = row.id == id || has_id id rows

unfoldable pub has_node : Str → Str → List NodeRow → Bool
has_node space id [] = false
has_node space id (row ∷ rows) = (row.id == id && row.space_id == space) || has_node space id rows

abbrev pub parent_there : Str → Option Str → List NodeRow → Bool
parent_there space none nodes = true
parent_there space (some parent) nodes = has_node space parent nodes

unfoldable pub name_taken : Str → Option Str → Str → Str → List NodeRow → Bool
name_taken space parent name id [] = false
name_taken space parent name id (row ∷ rows) =
    (is_live row
      && (not (row.id == id)
          && (row.space_id == space && (same_parent parent row.parent_id && row.name == name))))
    || name_taken space parent name id rows

-- An UPDATE of the live row of a Space: what it makes of the row, and its constraints.
unfoldable pub update_target : Str → Str → (NodeRow → NodeRow) → List NodeRow → List NodeRow
update_target space id change [] = []
update_target space id change (row ∷ rows) =
    (if is_target space id row then change row else row) ∷ update_target space id change rows

abbrev pub missing : Outcome → NodeTable → Result Node × NodeTable
missing fine t = (err (is node_not_found), t)
missing refused t = (err database_error, t)
missing lost t = (err database_error, t)

-- What `Rename` and `Trash` make of a row.
abbrev pub renamed : Str → Time → NodeRow → NodeRow
renamed name now row = record row { name = name; modified_at = now }

abbrev pub trashed : Time → NodeRow → NodeRow
trashed now row = record row { trashed_at = some now; modified_at = now }
