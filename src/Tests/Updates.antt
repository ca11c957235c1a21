-- ===== src/Tests/Updates.antt =====
-- Runs of the model of the updates of a peer and of its stats.
use lampd.Prelude.{ℕ, ◌<◌, ◌≡◌, refl, true, false, List, [], ◌∷◌, none, some, inr, arith, length}
use lampd.Prelude.Int.{ℤ, pos, negsuc, ◌+ℤ◌, eq_ℤ}
use lampd.Prelude.Bytes.{Bytes, codes}
use lampd.Prelude.Dict.{lookup}
use lampd.Column.{Column, status, hosts}
use lampd.Delta.{timestamp_blocks}
use lampd.Delta.Timestamps.{is_in_some_block, is_member, timestamp_blocks-is_member}
use lampd.Filter.{Filter, filter, nil, counter, equal, from_list}
use lampd.Filter.Match.{Row}
use lampd.Filter.Group.Safe.{all_safe}
use lampd.Peer.{warning, Settings, Peer, new_peer, set_next_addr_from_err}
use lampd.Peer.Round.{Remote, restart_required}
use lampd.Peer.Reachable.{Reachable, start, failed}
use lampd.Peer.Failover.{fail_all, fail_all-tries}
use lampd.Stats.{ResultSetStats, no_stats_yet, answer_stats}
use lampd.Stats.Counters.{IsExact, are_counters}
use lampd.Stats.Gather.{expected}
use lampd.Stats.Merge.{answer_stats-counts}
use lampd.Result.{ok}
use lampd.Tests.Data.{integers, row_of, name_column, fields_for}

-- A peer with two sources
abbrev two_sources : Peer ℕ
two_sources = new_peer (codes "a") (codes "b" ∷ [])

abbrev settings : Settings
settings = record {
  update_interval = 5;
  idle_interval = 60;
  idle_timeout = 120;
  full_update_interval = 600;
  stale_backend_timeout = 30;
  last_main_restart = 0;
}

abbrev failed_once :
    Reachable settings
      (codes "a")
      (codes "b" ∷ [])
      (set_next_addr_from_err settings 20 false (codes "refused") two_sources)
failed_once = failed two_sources 20 false (codes "refused") start

fail_all-tries_example :
    (k : ℕ) × (k < 2)
    × ((failures : List (ℕ × Bytes))
        → length failures ≡ k
        → (fail_all settings failures two_sources).addr ≡ codes "b")
fail_all-tries_example = fail_all-tries settings two_sources 1 (omega arith) refl (omega arith)

-- A peer behind a short outage
abbrev after_outage : Peer ℕ
after_outage = record two_sources { state = warning; data_set = some 7; error_count = 1 }

-- A remote site that was restarted.
abbrev restarted_site : Remote ℕ
restarted_site = record {
  update_full_table = λ name d p. (p, some (restart_required (codes "restarted")));
  update_delta_hosts = λ d from to p. (p, none);
  update_delta_services = λ d from to p. (p, none);
  update_delta_remarks = λ name d p. (p, none);
  fill_tables = λ p. (p, inr 42);
  request_localtime = λ p. (p, none);
  fetch_config_tool = λ p. (p, none);
  query_status = λ p. (p, inr (some (9, 4)));
  update_tables = status ∷ hosts ∷ [];
}

-- 5 and 6 are one block.
abbrev timestamps : List ℤ
timestamps = pos 5 ∷ pos 6 ∷ pos 9 ∷ []

timestamps-set : is_member (negsuc 0) timestamps ≡ false
unfolding is_member eq_ℤ
timestamps-set = refl

timestamp_blocks-is_member_example :
    is_in_some_block (pos 6) (timestamp_blocks (negsuc 0) (negsuc 0) timestamps)
    ≡ is_member (pos 6) timestamps
timestamp_blocks-is_member_example = timestamp_blocks-is_member (pos 6) timestamps timestamps-set

-- "Stats: name = web" over the names of the hosts of two peers
abbrev stats_of_web : List Filter
stats_of_web = filter (record (fields_for equal (codes "web")) { stats_type = counter }) nil ∷ []

abbrev two_peers_hosts : List (List Bytes)
two_peers_hosts = (codes "web" ∷ codes "db" ∷ []) ∷ (codes "web" ∷ []) ∷ []

abbrev row_with : Bytes → Row × Column
row_with name = (row_of name, name_column)

integers-IsExact : IsExact
unfolding integers ◌+ℤ◌
integers-IsExact a b small = ground arith

stats_of_web-are_counters : are_counters 0 stats_of_web ≡ true
unfolding are_counters
stats_of_web-are_counters = refl

stats_of_web-all_safe : all_safe stats_of_web ≡ true
unfolding all_safe
stats_of_web-all_safe = refl

answer_stats-counts_example :
    (r : ResultSetStats) × (answer_stats
        (λ name. ok true)
        (λ name. [])
        row_with
        stats_of_web
        (from_list stats_of_web)
        two_peers_hosts
        no_stats_yet
      ≡ ok r)
    × ((k : Bytes)
        → lookup k r.stats
          ≡ expected
              (λ name. true)
              (λ name. [])
              row_with
              stats_of_web
              (codes "web" ∷ codes "db" ∷ codes "web" ∷ [])
              k)
answer_stats-counts_example =
    answer_stats-counts (λ name. true) (λ name. []) row_with integers-IsExact (λ name c tag. refl)
      (λ name. ok true) (λ name. refl) stats_of_web stats_of_web-are_counters stats_of_web-all_safe
      two_peers_hosts (omega arith)
