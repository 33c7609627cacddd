-- ===== src/Tests/Finished.antt =====
-- A completed upload that is completed again.
use goreecloud_drive.Prelude.{◌≡◌, refl, none, some, if◌then◌else◌, arith}
use goreecloud_drive.Prelude.Text.{◌==◌, ==_iff}
use goreecloud_drive.Prelude.Int.{pos}
use goreecloud_drive.Errors.{Error, err}
use goreecloud_drive.Uploads.Interface.{Session, completed}
use goreecloud_drive.Uploads.Memory.{Sessions, IsKeyed, memory_repository}
use goreecloud_drive.Uploads.{Service, Stored, append, complete}
use goreecloud_drive.Uploads.Publication.{wired}
use goreecloud_drive.Uploads.Machine.{still, further, completing, completed_is_final}
use goreecloud_drive.Tests.Fixtures.{space_id, upload_id, account_id, root}
use goreecloud_drive.Tests.Sessions.{digest, clean_scanner, stored_session, before}

abbrev finished : Session
finished = record stored_session { state = completed }

abbrev finished_stores : Stored Sessions
finished_stores = record before { sessions = λ k. if k == upload_id then some finished else none }

abbrev server : Service Sessions
server = wired digest memory_repository root clean_scanner (pos 1024) (pos 3600)

abbrev once_more : Stored Sessions
once_more = (complete server account_id space_id upload_id finished_stores).1

finished_stores-IsKeyed : IsKeyed finished_stores.sessions
finished_stores-IsKeyed k s h = ground (arith, ==_iff k upload_id)

finished_stored : finished_stores.sessions upload_id ≡ some finished
unfolding ◌==◌
finished_stored = refl

completed_is_final_example :
    (once_more.sessions upload_id ≡ some finished)
    × ((e : Error) × ((append server account_id space_id upload_id (pos 2) none once_more).0
          ≡ err e))
    × ((e : Error) × ((complete server account_id space_id upload_id once_more).0 ≡ err e))
completed_is_final_example =
    completed_is_final server refl finished_stores once_more upload_id finished account_id space_id
      (pos 2) none
      (further finished_stores once_more still (completing account_id space_id upload_id))
      finished_stores-IsKeyed refl finished_stored
