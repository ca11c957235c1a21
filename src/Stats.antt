-- ===== src/Stats.antt =====
-- Stats queries: `ApplyValue` (lmd/filter.go), `CountStats` and `getStatsKey` (lmd/datarow.go),
-- `createLocalStatsCopy` (lmd/peer.go), and `gatherStatsResult`, `MergeStats` and `finalStatsApply`
-- (lmd/response.go).
pub mod Counters
pub mod Gather
pub mod Merge
use lampd.Prelude.{
  ℕ, zero, suc, ◌+◌, Bool, true, false, ◌||◌, Option, none, some, List, [], ◌∷◌, map, ltb, ◌==◌,
  if◌then◌else◌,
}
use lampd.Prelude.Bytes.{Bytes}
use lampd.Prelude.Dict.{Dict, lookup, insert}
use lampd.Column.{Column}
use lampd.Filter.{
  no_stats, counter, sum, average, min, max, stats_group, Fields, Filter, Filters, filter, nil,
  cons, fields, zero_fields,
}
use lampd.Filter.Match.{Row, match_filter}
use lampd.Platform.{Platform}
use lampd.Result.{Result, ok, err, ◌>>=◌, panic, update_at}

module _ ⦃p : Platform⦄ where
  -- The switch of `ApplyValue`: the new f.Stats.
  unfoldable pub applied : p.Float → ℕ → Fields → Result p.Float
  applied val count f = elim f.stats_type [
    | counter ↦ ok (p.add f.stats (p.from_nat count))
    | average ↦ ok (p.add f.stats val)
    | sum ↦ ok (p.add f.stats val)
    | min ↦ ok (if p.float_lt val f.stats || p.float_eq f.stats p.minus_one then val else f.stats)
    | max ↦ ok (if p.float_lt f.stats val then val else f.stats)
    | no_stats ↦ err panic
    | stats_group ↦ err panic
  ]

  -- `ApplyValue`
  unfoldable pub apply_value : p.Float → ℕ → Fields → Result Fields
  unfolding applied
  apply_value val count f = applied val count f >>= λ stats.
      ok (record f { stats = stats; stats_count = f.stats_count + count })

  -- result[resultPos].Stats++ and result[resultPos].StatsCount++
  abbrev pub count_row : Fields → Result Fields
  count_row f =
      ok (record f { stats = p.add f.stats (p.from_nat 1); stats_count = f.stats_count + 1 })

  -- The default case of `CountStats`, for the column of the filter; nil panics in GetFloat.
  unfoldable pub pass_through : Row → Option Column → Fields → Result Fields
  unfolding apply_value
  pass_through row none f = err panic
  pass_through row (some c) f = apply_value (row.get_float c) 1 f

  -- `CountStats`: the loop, from position `i` on, and its body.
  unfoldable mutual
    unfolding update_at pass_through match_filter

    pub count_stats : (Row × Column) → ℕ → Filters → List Fields → Result (List Fields)
    count_stats row i nil result = ok result
    count_stats row i (cons s stats) result =
        count_stat row i s result >>= λ r. count_stats row (suc i) stats r

    pub count_stat : (Row × Column) → ℕ → Filter → List Fields → Result (List Fields)
    count_stat row i (filter f fs) result =
        let pos = if ltb 0 f.stats_pos then f.stats_pos else i in
        let passed = update_at (pass_through row.0 f.column) pos result in
        let group = count_stats row 0 fs result in
        elim f.stats_type [
          | counter ↦ match_filter row (filter f fs) >>= λ b.
              if b then update_at count_row pos result else ok result
          | stats_group ↦ match_filter row (filter f fs) >>= λ b. if b then group else ok result
          | sum ↦ passed
          | average ↦ passed
          | min ↦ passed
          | max ↦ passed
          | no_stats ↦ passed
        ]

  -- The body of `createLocalStatsCopy`; the new filters have no subfilters.
  unfoldable pub local_copy : Filter → Fields
  local_copy (filter f fs) =
      let copy = record zero_fields { stats_type = f.stats_type } in
      elim f.stats_type [
        | min ↦ record copy { stats = p.minus_one }
        | counter ↦ copy
        | sum ↦ copy
        | average ↦ copy
        | max ↦ copy
        | no_stats ↦ copy
        | stats_group ↦ copy
      ]

  -- `createLocalStatsCopy`
  unfoldable pub create_local_stats_copy : List Filter → List Fields
  unfolding local_copy
  create_local_stats_copy stats = map local_copy stats

  -- `ResultSetStats`
  pub record ResultSetStats : Type 0 where
    pub stats : Dict (List Fields)
    pub total : ℕ
    pub rows_scanned : ℕ

  -- `NewResultSetStats`
  abbrev pub no_stats_yet : ResultSetStats
  no_stats_yet = record { stats = []; total = 0; rows_scanned = 0 }

  -- localStats[key], or the new copy
  abbrev pub or_copy : List Filter → Option (List Fields) → List Fields
  or_copy stats none = create_local_stats_copy stats
  or_copy stats (some found) = found

  module _ {A : Type 0} (matches : A → Result Bool) (key : A → Bytes) (row_of : A → Row × Column)
      (stats : List Filter) (counted : Filters) where
    -- The body of the loop of `gatherStatsResult` for a row that matches and is authorized.
    unfoldable pub gather_stat : A → ResultSetStats → Result ResultSetStats
    unfolding lookup insert create_local_stats_copy count_stats
    gather_stat row r =
        count_stats (row_of row) 0 counted (or_copy stats (lookup (key row) r.stats)) >>= λ stat.
        ok (record r { stats = insert (key row) stat r.stats; total = r.total + 1 })

    -- `gatherStatsResult` for the prefiltered rows: `matches` is the filters' and `checkAuth`'s
    -- answer, `counted` the grouped stats of the request if it has them, and its stats otherwise.
    unfoldable pub gather_stats : List A → ResultSetStats → Result ResultSetStats
    unfolding gather_stat
    gather_stats [] r = ok r
    gather_stats (row ∷ rows) r =
        let scanned = record r { rows_scanned = r.rows_scanned + 1 } in
        matches row >>= λ b.
        (if b then gather_stat row scanned else ok scanned) >>= λ r'. gather_stats rows r'

  -- The inner loop of `MergeStats`: the stats of a key that is known already.
  unfoldable pub merge_key : List Fields → List Fields → Result (List Fields)
  unfolding apply_value
  merge_key known [] = ok known
  merge_key [] (s ∷ stats) = err panic
  merge_key (k ∷ known) (s ∷ stats) =
      apply_value s.stats s.stats_count k >>= λ k'. merge_key known stats >>= λ rest. ok (k' ∷ rest)

  -- The body of the outer loop of `MergeStats`.
  unfoldable pub merge_entry :
      Bytes → List Fields → Dict (List Fields) → Result (Dict (List Fields))
  unfolding lookup insert merge_key
  merge_entry key stats known = elim (lookup key known) [
    | none ↦ ok (insert key stats known)
    | some found ↦ merge_key found stats >>= λ merged. ok (insert key merged known)
  ]

  unfoldable pub merge_entries :
      Dict (List Fields) → Dict (List Fields) → Result (Dict (List Fields))
  unfolding merge_entry
  merge_entries known [] = ok known
  merge_entries known ((key, stats) ∷ entries) =
      merge_entry key stats known >>= λ known'. merge_entries known' entries

  -- `MergeStats` of the result of a peer into the result of the request.
  unfoldable pub merge_stats : ResultSetStats → ResultSetStats → Result ResultSetStats
  unfolding merge_entries
  merge_stats r peer = merge_entries r.stats peer.stats >>= λ merged. ok (record {
    stats = merged;
    total = r.total + peer.total;
    rows_scanned = r.rows_scanned + peer.rows_scanned;
  })

  -- `finalStatsApply`
  unfoldable pub final_stats_apply : Fields → Result p.Float
  final_stats_apply s =
      let mean =
        if ltb 0 s.stats_count then p.div s.stats (p.from_nat s.stats_count) else p.from_nat 0 in
      let shown = λ (res : p.Float). if s.stats_count == 0 then ok (p.from_nat 0) else ok res in
      elim s.stats_type [
        | counter ↦ shown s.stats
        | min ↦ shown s.stats
        | max ↦ shown s.stats
        | sum ↦ shown s.stats
        | average ↦ shown mean
        | no_stats ↦ err panic
        | stats_group ↦ err panic
      ]

  module _ {A : Type 0} (matches : A → Result Bool) (key : A → Bytes) (row_of : A → Row × Column)
      (stats : List Filter) (counted : Filters) where
    -- The results of the peers, gathered one by one and merged as they are ready.
    unfoldable pub answer_stats : List (List A) → ResultSetStats → Result ResultSetStats
    unfolding gather_stats merge_stats
    answer_stats [] r = ok r
    answer_stats (rows ∷ peers) r =
        gather_stats matches key row_of stats counted rows no_stats_yet >>= λ peer.
        merge_stats r peer >>= λ r'. answer_stats peers r'
