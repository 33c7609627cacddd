-- ===== src/Uploads/Postgres/Lawful.antt =====
-- The laws of the PostgreSQL repository, put together.
use goreecloud_drive.Prelude.{◌≡◌, Bool, true, none, some, if◌then◌else◌, arith}
use goreecloud_drive.Prelude.Text.{Str, ◌==◌}
use goreecloud_drive.Prelude.Int.{ℤ}
use goreecloud_drive.Errors.{ok}
use goreecloud_drive.Ids.{valid_storage_id}
use goreecloud_drive.Uploads.Interface.{Session, State, IsRepository}
use goreecloud_drive.Uploads.Postgres.{
  UploadTable, Database, updated_row, postgres_create, postgres_update, postgres_repository,
}
use goreecloud_drive.Uploads.Postgres.Laws.{
  IsUuidInput, HasUuids, IsStorable, table_view, get-HasUuids, get_view, get_keeps, view_id,
}
use goreecloud_drive.Uploads.Postgres.Refinement.{
  create_ok, update_ok, create-HasUuids, update-HasUuids, session_row-scan, updated_row-scan,
  view_uuids, view_put,
}

module _ (db : Database) (uuids : IsUuidInput db.uuid_in) (connected : Bool) where
  create_view :
      (s : Session) (j : Str) (t : UploadTable)
      → IsStorable db s
      → valid_storage_id s.id ≡ true
      → valid_storage_id j ≡ true
      → (postgres_create db connected s t).0 ≡ ok tt
      → (table_view db t s.id ≡ none)
        × (table_view db (postgres_create db connected s t).1 j
            ≡ (if s.id == j then some s else table_view db t j))
  unfolding table_view
  create_view s j t keeps valid canonical h =
      let (id, row, key, made, free, done, put) = create_ok db uuids connected s t h in
      let own = uuids.canonical s.id valid in
      let named : s.id ≡ id = ground arith in
      (
        ground arith,
        rw put (
            view_put db uuids connected s.id id j row s t named (uuids.canonical j canonical) done
              (session_row-scan db uuids connected s id row keeps named made)),
      )

  update_view :
      (old : Session) (offset : ℤ) (state : State) (j : Str) (t : UploadTable)
      → HasUuids db t
      → valid_storage_id old.id ≡ true
      → valid_storage_id j ≡ true
      → table_view db t old.id ≡ some old
      → (postgres_update db connected (record old { offset = offset; state = state }) t).0 ≡ ok tt
      → table_view db
          (postgres_update db connected (record old { offset = offset; state = state }) t).1
          j
        ≡ (if old.id == j
            then some (record old { offset = offset; state = state })
            else table_view db t j)
  unfolding table_view
  update_view old offset state j t holds valid canonical there h =
      let new = record old { offset = offset; state = state } in
      let (id, columns, row, key, made, found, done, put) = update_ok db uuids connected new t h in
      let own = uuids.canonical old.id valid in
      let named : old.id ≡ id = ground arith in
      let (node, parent) = view_uuids db uuids connected t old.id old holds there in
      rw put (
        view_put db uuids connected old.id id j (updated_row db new columns row) new t named
          (uuids.canonical j canonical) done
          (updated_row-scan db uuids connected old columns id row (ground arith) node parent offset
            state made))

  -- The PostgreSQL repository refines the map of its table, where uuids are read as PostgreSQL documents
  -- it: in every state whose uuids are in form a Get that succeeds gives the map's entry; a Create of a
  -- storable session, or an Update of the offset and the state of a session that is there, sets exactly
  -- the entry of its ID if it succeeds; Create wants that entry free; and every call leaves such a state.
  pub postgres-IsRepository :
      IsRepository (postgres_repository db connected) (HasUuids db) (IsStorable db) (table_view db)
  postgres-IsRepository = record {
    create_holds = create-HasUuids db uuids connected;
    get_holds = get-HasUuids db connected;
    update_holds = update-HasUuids db uuids connected;
    view_id = view_id db connected uuids;
    get_view = get_view db connected;
    get_keeps = get_keeps db connected;
    create_view = create_view;
    update_view = update_view;
  }
