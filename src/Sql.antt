-- ===== src/Sql.antt =====
-- What the packages that use database/sql share: the outcomes of a statement.
use goreecloud_drive.Prelude.{List, [], ◌∷◌}

-- `refused` is an error before the statement takes effect (a foreign key or the connection), `lost` an
-- error after it: the answer, or its count of rows, does not arrive.
pub data Outcome : Type 0 where
  fine refused lost : Outcome

abbrev pub next_outcome : List Outcome → Outcome × List Outcome
next_outcome [] = (fine, [])
next_outcome (o ∷ os) = (o, os)
