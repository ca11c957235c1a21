-- ===== src/Stats/Gather.antt =====
-- `gatherStatsResult` (lmd/response.go) for a stats query of counters.
use mathlib.Core.Path.{subst}
use mathlib.Core.List.{append-nil, append_assoc}
use lampd.Prelude.{
  ℕ, suc, ◌+◌, ◌≤◌, ◌≡◌, refl, sym, ap, ◌∙◌, inl, inr, Bool, true, false, ◌&&◌, ◌||◌, Option, none,
  some, List, [], ◌∷◌, ◌++◌, map, arith, length, length-append, if◌then◌else◌, Bool-cases,
}
use lampd.Prelude.Bytes.{Bytes, ◌=b◌, =b_iff}
use lampd.Prelude.Dict.{lookup, insert, lookup-insert, IsUnique, insert-IsUnique}
use lampd.Column.{Column}
use lampd.Filter.{Filter, filter, Fields, from_list}
use lampd.Filter.Match.{Row}
use lampd.Filter.Match.Returns.{HasCustomVars}
use lampd.Filter.Group.Safe.{all_safe}
use lampd.Platform.{Platform}
use lampd.Result.{Result, ok, err, ◌>>=◌}
use lampd.Stats.{
  count_stats, local_copy, create_local_stats_copy, ResultSetStats, or_copy, gather_stat,
  gather_stats,
}
use lampd.Stats.Counters.{
  exact_limit, IsExact, one_if, are_counters, counter_of, counters-same, hit, count_stats-counters,
  is_counter,
}

module _ ⦃p : Platform⦄ {A : Type 0} (select : A → Bool) (key : A → Bytes)
    (row_of : A → Row × Column) where
  -- The rows that are selected, have the key, and match the filter of a counter.
  unfoldable pub count_of : Bytes → Filter → List A → ℕ
  count_of k s [] = 0
  count_of k s (a ∷ rows) =
      one_if (select a && (key a =b k && hit (row_of a) s)) + count_of k s rows

  -- Is there a selected row with this key?
  unfoldable pub is_present : Bytes → List A → Bool
  is_present k [] = false
  is_present k (a ∷ rows) = (select a && key a =b k) || is_present k rows

  -- What the answer holds for a key, seen from all rows at once.
  unfoldable pub expected : List Filter → List A → Bytes → Option (List Fields)
  unfolding count_of is_present
  expected stats rows k =
      if is_present k rows then some (map (λ s. counter_of (count_of k s rows)) stats) else none

  pub count_of-append :
      (k : Bytes) (s : Filter) (xs ys : List A)
      → count_of k s (xs ++ ys) ≡ count_of k s xs + count_of k s ys
  unfolding count_of
  count_of-append k s [] ys = omega arith
  count_of-append k s (a ∷ xs) ys = omega (arith, count_of-append k s xs ys)

  pub is_present-append :
      (k : Bytes) (xs ys : List A) → is_present k (xs ++ ys) ≡ (is_present k xs || is_present k ys)
  unfolding is_present
  is_present-append k [] ys = refl
  is_present-append k (a ∷ xs) ys = ground (arith, is_present-append k xs ys)

  pub count_of_le : (k : Bytes) (s : Filter) (rows : List A) → count_of k s rows ≤ length rows
  unfolding count_of
  count_of_le k s [] = omega arith
  count_of_le k s (a ∷ rows) = ground (arith, count_of_le k s rows)

  pub count_of-absent :
      (k : Bytes) (s : Filter) (rows : List A) → is_present k rows ≡ false → count_of k s rows ≡ 0
  unfolding count_of is_present
  count_of-absent k s [] e = refl
  count_of-absent k s (a ∷ rows) e = ground (arith, count_of-absent k s rows, e)

  copy-counters :
      (i : ℕ) (stats : List Filter)
      → are_counters i stats ≡ true
      → create_local_stats_copy stats ≡ map (λ s. counter_of 0) stats
  unfolding are_counters create_local_stats_copy local_copy
  copy-counters i [] counts = refl
  copy-counters i (filter f fs ∷ stats) counts =
      let typed = is_counter f.stats_type (ground (arith, counts)) in
      let rest = copy-counters (suc i) stats (ground (arith, counts)) in ground (arith, typed, rest)

  -- The result of a query holds what the rows say, and no key twice.
  abbrev pub Shows : List Filter → List A → ResultSetStats → Type 0
  Shows stats rows r = ((k : Bytes) → lookup k r.stats ≡ expected stats rows k) × IsUnique r.stats

  module _ (exact : IsExact) (vars : (a : A) → HasCustomVars (row_of a).0)
      (matches : A → Result Bool) (matching : (a : A) → matches a ≡ ok (select a))
      (stats : List Filter) (counts : are_counters 0 stats ≡ true)
      (safe : all_safe stats ≡ true) where
    or_copy-expected :
        (k : Bytes) (rows : List A)
        → or_copy stats (expected stats rows k) ≡ map (λ s. counter_of (count_of k s rows)) stats
    unfolding expected
    or_copy-expected k rows = elim (Bool-cases (is_present k rows)) [
      | inl e ↦ ground (arith, e)
      | inr e ↦
          let same =
            counters-same stats (λ s. 0) (λ s. count_of k s rows)
              (λ s. sym (count_of-absent k s rows e)) in
          let copied = copy-counters 0 stats counts in ground (arith, e, copied, same)
    ]

    expected-other :
        (k : Bytes) (rows : List A) (a : A)
        → (select a && key a =b k) ≡ false
        → expected stats (rows ++ a ∷ []) k ≡ expected stats rows k
    unfolding expected count_of is_present
    expected-other k rows a e =
        ap
          (λ b.
            if b then some (map (λ s. counter_of (count_of k s (rows ++ a ∷ []))) stats) else none)
          (is_present-append k rows (a ∷ []) ∙ ground (arith, e))
        ∙ ap (λ l. if is_present k rows then some l else none)
            (counters-same stats (λ s. count_of k s (rows ++ a ∷ [])) (λ s. count_of k s rows)
              (λ s. count_of-append k s rows (a ∷ []) ∙ ground (arith, e)))

    expected-here :
        (rows : List A) (a : A)
        → select a ≡ true
        → expected stats (rows ++ a ∷ []) (key a)
          ≡ some (map (λ s. counter_of (count_of (key a) s rows + one_if (hit (row_of a) s))) stats)
    unfolding expected count_of is_present
    expected-here rows a e =
        let own : (key a =b key a) ≡ true = (=b_iff (key a) (key a)).1 refl in
        let here : is_present (key a) (rows ++ a ∷ []) ≡ true =
          is_present-append (key a) rows (a ∷ []) ∙ ground (arith, e, own) in
        ap
          (λ b.
            if b
            then some (map (λ s. counter_of (count_of (key a) s (rows ++ a ∷ []))) stats)
            else none)
          here
        ∙ ap some (
            counters-same stats (λ s. count_of (key a) s (rows ++ a ∷ []))
              (λ s. count_of (key a) s rows + one_if (hit (row_of a) s))
              (λ s. count_of-append (key a) s rows (a ∷ []) ∙ ground (arith, e, own)))

    gather_stat-Shows :
        (before : List A) (a : A) (r : ResultSetStats)
        → select a ≡ true
        → length before + 1 ≤ exact_limit
        → Shows stats before r
        → (r' : ResultSetStats) × (gather_stat matches key row_of stats (from_list stats) a r
            ≡ ok r')
          × Shows stats (before ++ a ∷ []) r'
    unfolding gather_stat
    gather_stat-Shows before a r chosen small (shown, unique) =
        let n = λ (s : Filter). count_of (key a) s before in
        let l = map (λ s. counter_of (n s + one_if (hit (row_of a) s))) stats in
        let start = ap (or_copy stats) (shown (key a)) ∙ or_copy-expected (key a) before in
        let counted =
          ap (count_stats (row_of a) 0 (from_list stats)) start
          ∙ count_stats-counters exact (row_of a) (vars a) 0 [] n stats refl counts safe
              (λ s. omega (arith, count_of_le (key a) s before)) in
        (
          record r { stats = insert (key a) l r.stats; total = r.total + 1 },
          ap
              (λ c. c >>= λ stat.
                ok (record r { stats = insert (key a) stat r.stats; total = r.total + 1 }))
              counted,
          (
            (λ k. lookup-insert k (key a) l r.stats ∙ elim (Bool-cases (key a =b k)) [
              | inl here ↦
                  let same = (=b_iff (key a) k).0 here in
                  ap (λ b. if b then some l else lookup k r.stats) here
                  ∙ sym (expected-here before a chosen)
                  ∙ ap (expected stats (before ++ a ∷ [])) same
              | inr other ↦
                  ap (λ b. if b then some l else lookup k r.stats) other
                  ∙ shown k
                  ∙ sym (expected-other k before a (ground (arith, other)))
            ]),
            insert-IsUnique (key a) l r.stats unique,
          ),
        )

    one_row-Shows :
        (before : List A) (a : A) (r : ResultSetStats)
        → length before + 1 ≤ exact_limit
        → Shows stats before r
        → (r' : ResultSetStats) × ((matches a >>= λ b.
              if b then gather_stat matches key row_of stats (from_list stats) a r else ok r)
            ≡ ok r')
          × Shows stats (before ++ a ∷ []) r'
    one_row-Shows before a r small (shown, unique) = elim (Bool-cases (select a)) [
      | inl chosen ↦
          let (r', e, shows) = gather_stat-Shows before a r chosen small (shown, unique) in
          (r', ground (arith, matching a, chosen, e), shows)
      | inr skipped ↦ (
        r,
        ground (arith, matching a, skipped),
        ((λ k. shown k ∙ sym (expected-other k before a (ground (arith, skipped)))), unique),
      )
    ]

    pub gather_stats-Shows :
        (before rows : List A) (r : ResultSetStats)
        → length before + length rows ≤ exact_limit
        → Shows stats before r
        → (r' : ResultSetStats) × (gather_stats matches key row_of stats (from_list stats) rows r
            ≡ ok r')
          × Shows stats (before ++ rows) r'
    unfolding gather_stats
    gather_stats-Shows before [] r small shows =
        (r, refl, subst (λ l. Shows stats l r) (sym (append-nil before)) shows)
    gather_stats-Shows before (a ∷ rows) r small (shown, unique) =
        let scanned : ResultSetStats = record r { rows_scanned = r.rows_scanned + 1 } in
        let (r1, e1, shows1) = one_row-Shows before a scanned (omega arith) (shown, unique) in
        let (r2, e2, shows2) =
          gather_stats-Shows (before ++ a ∷ []) rows r1
            (omega (arith, length-append before (a ∷ []))) shows1 in
        (
          r2,
          flat (matches a) (λ b.
                if b
                then gather_stat matches key row_of stats (from_list stats) a scanned
                else ok scanned)
              ∙ ap
                  (λ c. c >>= λ r'. gather_stats matches key row_of stats (from_list stats) rows r')
                  e1
              ∙ e2,
          subst (λ l. Shows stats l r2) (append_assoc before (a ∷ []) rows) shows2,
        )
      where
        flat :
            (m : Result Bool) (next : Bool → Result ResultSetStats)
            → (m >>= λ b.
                next b >>= λ r'. gather_stats matches key row_of stats (from_list stats) rows r')
              ≡ ((m >>= next) >>= λ r'.
                  gather_stats matches key row_of stats (from_list stats) rows r')
        flat (ok b) next = refl
        flat (err wrong) next = refl
