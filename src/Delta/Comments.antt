-- ===== src/Delta/Comments.antt =====
-- `UpdateDeltaCommentsOrDowntimes` (lmd/datastoreset.go) from the query of the maximal id to the new
-- lists of the hosts and of the services. What the remote site answers is an argument.
pub mod Exact
use lampd.Prelude.{ℕ, Option, none, some, List, map, if◌then◌else◌}
use lampd.Prelude.Int.{ℤ}
use lampd.Platform.{Platform}
use lampd.Delta.{update_delta_ids, max_id_or_size_changed}
use lampd.Delta.Remarks.{Remark, Objects, build_downtime_comments_list}
use lampd.Store.{Item, DataStore}
use lampd.Result.{Error, Result, ok, ◌>>=◌}

-- The rows of the hosts and of the services, each with its list of ids.
abbrev pub Lists : Type 0
Lists = List (Item (List ℤ)) × List (Item (List ℤ))

module _ {A : Type 0} (remark_of : Item A → Remark) where
  -- RebuildCommentsList and RebuildDowntimesList, behind an update that may have failed.
  unfoldable pub rebuild_list :
      Objects → DataStore A → Option Error → Result ((DataStore A × Lists) × Option Error)
  unfolding build_downtime_comments_list
  rebuild_list o d (some wrong) = ok ((d, (o.hosts.items, o.services.items)), some wrong)
  rebuild_list o d none =
      build_downtime_comments_list o (map remark_of d.items) >>= λ lists. ok ((d, lists), none)

  -- `UpdateDeltaCommentsOrDowntimes`: `count` is the answer to the query for the number and the
  -- maximal id, `ids` are the ids of the remote site, and `fetch` is the rows that the query for the
  -- missing ids and NewDataRow give.
  unfoldable pub update_delta_comments_or_downtimes :
      ⦃p : Platform⦄
      → (Item A → ℕ)
      → Option (p.Float × p.Float)
      → (List ℤ → List (Result (Item A)))
      → List ℤ
      → Objects
      → DataStore A
      → Result ((DataStore A × Lists) × Option Error)
  unfolding max_id_or_size_changed update_delta_ids rebuild_list
  update_delta_comments_or_downtimes id count fetch ids o d =
      if max_id_or_size_changed id count d.items
      then (update_delta_ids fetch ids d >>= λ r. rebuild_list o r.0 r.1)
      else ok ((d, (o.hosts.items, o.services.items)), none)
