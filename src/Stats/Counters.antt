-- ===== src/Stats/Counters.antt =====
-- What the counters of a stats query hold after `gatherStatsResult`.
use mathlib.Core.Path.{fun_ext}
use mathlib.Core.List.{append_assoc}
use lampd.Prelude.{
  ℕ, suc, ◌+◌, ◌≤◌, ◌≡◌, refl, sym, ap, ◌∙◌, Bool, true, false, ◌&&◌, ◌||◌, List, [], ◌∷◌, ◌++◌,
  map, arith, ltb, ◌==◌, length, length-append, if◌then◌else◌,
}
use lampd.Column.{Column}
use lampd.Filter.{StatsType, counter, Fields, Filter, Filters, filter, from_list, zero_fields}
use lampd.Filter.Match.{Row, match_filter}
use lampd.Filter.Match.Returns.{is_ok, HasCustomVars}
use lampd.Filter.Group.Safe.{is_safe, all_safe, is_safe-is_ok}
use lampd.Platform.{Platform}
use lampd.Result.{update_at, Result, ok, err, ◌>>=◌}
use lampd.Stats.{count_row, count_stats, count_stat}

-- 2 ^ 53: a float64 counts exactly up to here.
abbrev pub exact_limit : ℕ
exact_limit = 9007199254740992

module _ ⦃p : Platform⦄ where
  -- Adding two numbers that a float64 holds exactly, with an exact sum, is exact.
  abbrev pub IsExact : Type 0
  IsExact =
      (a b : ℕ) → a + b ≤ exact_limit → p.add (p.from_nat a) (p.from_nat b) ≡ p.from_nat (a + b)

  abbrev pub is_true : Result Bool → Bool
  is_true (ok b) = b
  is_true (err e) = false

  abbrev pub one_if : Bool → ℕ
  one_if b = if b then 1 else 0

  abbrev pub is_counting : StatsType → Bool
  is_counting counter = true
  is_counting _ = false

  pub is_counter : (t : StatsType) → is_counting t ≡ true → t ≡ counter
  is_counter counter e = refl
  is_counter _ e = absurd (cc)

  -- Each filter is a `Stats` header with a condition, and none is sent to another position.
  unfoldable pub are_counters : ℕ → List Filter → Bool
  are_counters i [] = true
  are_counters i (filter f fs ∷ stats) =
      is_counting f.stats_type
      && (f.stats_pos == 0 || f.stats_pos == i)
      && are_counters (suc i) stats

  -- A counter that has counted `n` rows.
  abbrev pub counter_of : ℕ → Fields
  counter_of n = record zero_fields { stats = p.from_nat n; stats_count = n; stats_type = counter }

  pub counters-same :
      (stats : List Filter) (n m : Filter → ℕ)
      → ((s : Filter) → n s ≡ m s)
      → map (λ s. counter_of (n s)) stats ≡ map (λ s. counter_of (m s)) stats
  counters-same stats n m e = ap (λ c. map (λ s. counter_of (c s)) stats) (fun_ext e)

  -- Does the row match the filter of a counter?
  abbrev pub hit : (Row × Column) → Filter → Bool
  hit row s = is_true (match_filter row s)

  module _ (exact : IsExact) where
    update_at-counter :
        (done rest : List Fields) (n : ℕ)
        → n + 1 ≤ exact_limit
        → update_at count_row (length done) (done ++ counter_of n ∷ rest)
          ≡ ok (done ++ counter_of (n + 1) ∷ rest)
    unfolding update_at
    update_at-counter [] rest n small =
        ap
          (λ x.
            ok (record zero_fields { stats = x; stats_count = n + 1; stats_type = counter } ∷ rest))
          (exact n 1 small)
    update_at-counter (d ∷ done) rest n small =
        ap (λ r. r >>= λ ys. ok (d ∷ ys)) (update_at-counter done rest n small)

    module _ (row : Row × Column) (vars : HasCustomVars row.0) where
      hit-ok : (s : Filter) → is_safe s ≡ true → match_filter row s ≡ ok (hit row s)
      hit-ok s safe = known (match_filter row s) (is_safe-is_ok row vars s safe)
        where
          known : (r : Result Bool) → is_ok r ≡ true → r ≡ ok (is_true r)
          known (ok b) e = refl
          known (err wrong) e = absurd (cc)

      count_stat-typed :
          (i : ℕ) (f : Fields) (fs : Filters) (result : List Fields) (b : Bool)
          → f.stats_type ≡ counter
          → (f.stats_pos == 0 || f.stats_pos == i) ≡ true
          → match_filter row (filter f fs) ≡ ok b
          → count_stat row i (filter f fs) result
            ≡ (if b then update_at count_row i result else ok result)
      unfolding count_stats
      count_stat-typed i f fs result b typed placed e =
          let same : (if ltb 0 f.stats_pos then f.stats_pos else i) ≡ i = ground (arith, placed) in
          ground (arith, typed, e, same)

      count_stat-counter :
          (i : ℕ) (done rest : List Fields) (n : ℕ) (f : Fields) (fs : Filters)
          → length done ≡ i
          → (is_counting f.stats_type && (f.stats_pos == 0 || f.stats_pos == i)) ≡ true
          → is_safe (filter f fs) ≡ true
          → n + 1 ≤ exact_limit
          → count_stat row i (filter f fs) (done ++ counter_of n ∷ rest)
            ≡ ok (done ++ counter_of (n + one_if (hit row (filter f fs))) ∷ rest)
      count_stat-counter i done rest n f fs at counts safe small =
          count_stat-typed i f fs (done ++ counter_of n ∷ rest) (hit row (filter f fs)) typed
            (ground (arith, counts)) (hit-ok (filter f fs) safe)
          ∙ by_hit (hit row (filter f fs))
        where
          typed : f.stats_type ≡ counter
          typed = is_counter f.stats_type (ground (arith, counts))

          by_hit :
              (b : Bool)
              → (if b
                  then update_at count_row i (done ++ counter_of n ∷ rest)
                  else ok (done ++ counter_of n ∷ rest))
                ≡ ok (done ++ counter_of (n + one_if b) ∷ rest)
          by_hit true =
              ap (λ j. update_at count_row j (done ++ counter_of n ∷ rest)) (sym at)
              ∙ update_at-counter done rest n small
          by_hit false = ap (λ m. ok (done ++ counter_of m ∷ rest)) (omega arith)

      pub count_stats-counters :
          (i : ℕ) (done : List Fields) (n : Filter → ℕ) (stats : List Filter)
          → length done ≡ i
          → are_counters i stats ≡ true
          → all_safe stats ≡ true
          → ((s : Filter) → n s + 1 ≤ exact_limit)
          → count_stats row i (from_list stats) (done ++ map (λ s. counter_of (n s)) stats)
            ≡ ok (done ++ map (λ s. counter_of (n s + one_if (hit row s))) stats)
      unfolding count_stats are_counters all_safe
      count_stats-counters i done n [] at counts safe small = refl
      count_stats-counters i done n (filter f fs ∷ stats) at counts safe small =
          let s = filter f fs in
          let x = counter_of (n s + one_if (hit row s)) in
          let rest = map (λ s. counter_of (n s)) stats in
          let here =
            count_stat-counter i done rest (n s) f fs at (ground (arith, counts))
              (ground (arith, safe)) (small s) in
          let later =
            count_stats-counters (suc i) (done ++ x ∷ []) n stats
              (length-append done (x ∷ []) ∙ omega (arith, at)) (ground (arith, counts))
              (ground (arith, safe)) small in
          ap (λ r. r >>= λ r'. count_stats row (suc i) (from_list stats) r') here
          ∙ ap (count_stats row (suc i) (from_list stats)) (sym (append_assoc done (x ∷ []) rest))
          ∙ later
          ∙ ap ok
              (append_assoc done (x ∷ []) (map (λ s. counter_of (n s + one_if (hit row s))) stats))
