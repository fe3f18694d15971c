-- ===== src/Jobs/Keyed.antt =====
-- A Python dict of jobs by their id, as the list of its values.
use parliament.Base.{if◌then◌else◌, str_eq, [], ◌∷◌}
use parliament.Job.{Job}
use parliament.Jobs.{Jobs}

-- `by_id[job["id"]] = job`
unfoldable pub put_by_id : Job → Jobs → Jobs
put_by_id j [] = j ∷ []
put_by_id j (k ∷ ks) = if str_eq k.id j.id then j ∷ ks else k ∷ put_by_id j ks
