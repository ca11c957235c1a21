-- ===== src/Stats/Merge.antt =====
-- `MergeStats` (lmd/response.go): the counters of the peers, in any order, add up.
use mathlib.Core.Path.{subst}
use mathlib.Core.List.{append-nil, append_assoc}
use lampd.Prelude.{
  ℕ, ◌+◌, ◌≤◌, ◌≡◌, refl, sym, ap, ◌∙◌, inl, inr, Bool, true, false, ◌||◌, Option, none, some, List,
  [], ◌∷◌, ◌++◌, map, arith, length, length-append, if◌then◌else◌, Bool-cases, Option-cases,
}
use lampd.Prelude.Bytes.{Bytes, ◌=b◌, =b_iff}
use lampd.Prelude.Dict.{Dict, lookup, insert, lookup-insert, IsUnique, insert-IsUnique}
use lampd.Column.{Column}
use lampd.Filter.{Fields, Filter, from_list}
use lampd.Filter.Match.{Row}
use lampd.Filter.Match.Returns.{HasCustomVars}
use lampd.Filter.Group.Safe.{all_safe}
use lampd.Platform.{Platform}
use lampd.Result.{Result, ok, ◌>>=◌, bind_ok}
use lampd.Stats.{
  ResultSetStats, no_stats_yet, merge_key, merge_entry, merge_entries, merge_stats, answer_stats,
  apply_value,
}
use lampd.Stats.Counters.{exact_limit, IsExact, are_counters, counter_of, counters-same}
use lampd.Stats.Gather.{
  count_of, is_present, expected, count_of-append, is_present-append, count_of_le, count_of-absent,
  Shows, gather_stats-Shows,
}

module _ ⦃p : Platform⦄ where
  -- What merging makes of the stats of one key.
  abbrev joined : Option (List Fields) → Option (List Fields) → Result (Option (List Fields))
  joined known none = ok known
  joined none (some stats) = ok (some stats)
  joined (some found) (some stats) = merge_key found stats >>= λ merged. ok (some merged)

  merge_entry-joined :
      (key : Bytes) (stats : List Fields) (known : Dict (List Fields)) (o : Option (List Fields))
      → joined (lookup key known) (some stats) ≡ ok o
      → (known' : Dict (List Fields)) × (merge_entry key stats known ≡ ok known')
        × ((k : Bytes) → lookup k known' ≡ (if key =b k then o else lookup k known))
        × (IsUnique known → IsUnique known')
  unfolding merge_entry
  merge_entry-joined key stats known o e = elim (Option-cases (lookup key known)) [
    | inl missing ↦
        let same : some stats ≡ o = ground (arith, missing, e) in
        (
          insert key stats known,
          ground (arith, missing),
          (λ k.
              lookup-insert k key stats known
              ∙ ap (λ v. if key =b k then v else lookup k known) same),
          insert-IsUnique key stats known,
        )
    | inr (found, here) ↦
        let (merged, e1, e2) =
          bind_ok (merge_key found stats) (λ merged. ok (some merged)) {end = o}
            (ground (arith, here, e)) in
        let same : some merged ≡ o = ground (arith, e2) in
        (
          insert key merged known,
          ground (arith, here, e1),
          (λ k.
              lookup-insert k key merged known
              ∙ ap (λ v. if key =b k then v else lookup k known) same),
          insert-IsUnique key merged known,
        )
  ]

  merge_entries-joined :
      (known entries : Dict (List Fields)) (o : Bytes → Option (List Fields))
      → IsUnique known
      → IsUnique entries
      → ((k : Bytes) → joined (lookup k known) (lookup k entries) ≡ ok (o k))
      → (merged : Dict (List Fields)) × (merge_entries known entries ≡ ok merged)
        × ((k : Bytes) → lookup k merged ≡ o k)
        × IsUnique merged
  unfolding merge_entries lookup
  merge_entries-joined known [] o unique_known unique e =
      (known, refl, (λ k. ok_same (lookup k known) (o k) (e k)), unique_known)
    where
      ok_same : (a b : Option (List Fields)) → ok a ≡ ok b → a ≡ b
      ok_same a b h = cc
  merge_entries-joined known ((key, stats) ∷ entries) o unique_known unique e =
      let own = (=b_iff key key).1 refl in
      let first : joined (lookup key known) (some stats) ≡ ok (o key) =
        ap (λ b. joined (lookup key known) (if b then some stats else lookup key entries)) (sym own)
        ∙ e key in
      let (known1, e1, shows1, unique1) = merge_entry-joined key stats known (o key) first in
      let (merged, e2, shows2, unique2) =
        merge_entries-joined known1 entries o (unique1 unique_known) unique.1
          (λ k. ap (λ v. joined v (lookup k entries)) (shows1 k) ∙ later k) in
      (merged, ap (λ r. r >>= λ known'. merge_entries known' entries) e1 ∙ e2, shows2, unique2)
    where
      later :
          (k : Bytes)
          → joined (if key =b k then o key else lookup k known) (lookup k entries) ≡ ok (o k)
      later k = elim (Bool-cases (key =b k)) [
        | inl here ↦
            let same = (=b_iff key k).0 here in
            let gone : lookup k entries ≡ none = ap (λ j. lookup j entries) (sym same) ∙ unique.0 in
            ground (arith, here, gone, same)
        | inr other ↦ let at = e k in ground (arith, other, at)
      ]

  module _ (exact : IsExact) where
    merge_key-counters :
        (stats : List Filter) (n m : Filter → ℕ)
        → ((s : Filter) → n s + m s ≤ exact_limit)
        → merge_key (map (λ s. counter_of (n s)) stats) (map (λ s. counter_of (m s)) stats)
          ≡ ok (map (λ s. counter_of (n s + m s)) stats)
    unfolding merge_key apply_value
    merge_key-counters [] n m small = refl
    merge_key-counters (s ∷ stats) n m small =
        let rest = merge_key-counters stats n m small in
        let here = exact (n s) (m s) (small s) in rw (rest, here)

  module _ {A : Type 0} (select : A → Bool) (key : A → Bytes) (row_of : A → Row × Column)
      (exact : IsExact) where
    joined-expected :
        (stats : List Filter) (xs ys : List A) (k : Bytes)
        → length xs + length ys ≤ exact_limit
        → joined (expected select key row_of stats xs k) (expected select key row_of stats ys k)
          ≡ ok (expected select key row_of stats (xs ++ ys) k)
    unfolding expected
    joined-expected stats xs ys k small =
        by_presence (is_present select key row_of k xs) (is_present select key row_of k ys)
          (λ e s. count_of-absent select key row_of k s xs e)
          (λ e s. count_of-absent select key row_of k s ys e)
        ∙ ap (λ b. ok (if b then some (map (λ s. counter_of (n s + m s)) stats) else none))
            (sym (is_present-append select key row_of k xs ys))
        ∙ ap (λ l. ok (if is_present select key row_of k (xs ++ ys) then some l else none))
            (counters-same stats (λ s. n s + m s) (λ s. count_of select key row_of k s (xs ++ ys))
              (λ s. sym (count_of-append select key row_of k s xs ys)))
      where
        n : Filter → ℕ
        n s = count_of select key row_of k s xs

        m : Filter → ℕ
        m s = count_of select key row_of k s ys

        fits : (s : Filter) → n s + m s ≤ exact_limit
        fits s = omega (
          arith,
          small,
          count_of_le select key row_of k s xs,
          count_of_le select key row_of k s ys,
        )

        by_presence :
            (b c : Bool)
            → (b ≡ false → (s : Filter) → n s ≡ 0)
            → (c ≡ false → (s : Filter) → m s ≡ 0)
            → joined
                (if b then some (map (λ s. counter_of (n s)) stats) else none)
                (if c then some (map (λ s. counter_of (m s)) stats) else none)
              ≡ ok (if b || c then some (map (λ s. counter_of (n s + m s)) stats) else none)
        by_presence true true no_x no_y =
            ap (λ r. r >>= λ merged. ok (some merged)) (merge_key-counters exact stats n m fits)
        by_presence true false no_x no_y =
            ap (λ l. ok (some l))
              (counters-same stats n (λ s. n s + m s) (λ s. omega (arith, no_y refl s)))
        by_presence false true no_x no_y =
            ap (λ l. ok (some l))
              (counters-same stats m (λ s. n s + m s) (λ s. omega (arith, no_x refl s)))
        by_presence false false no_x no_y = refl

    merge_stats-Shows :
        (stats : List Filter) (xs ys : List A) (r peer : ResultSetStats)
        → length xs + length ys ≤ exact_limit
        → Shows select key row_of stats xs r
        → Shows select key row_of stats ys peer
        → (r' : ResultSetStats) × (merge_stats r peer ≡ ok r')
          × Shows select key row_of stats (xs ++ ys) r'
    unfolding merge_stats
    merge_stats-Shows stats xs ys r peer small (shown, unique) (shown', unique') =
        let (merged, e, at, only) =
          merge_entries-joined r.stats peer.stats (expected select key row_of stats (xs ++ ys))
            unique unique'
            (λ k.
              ap (joined (lookup k r.stats)) (shown' k)
              ∙ ap (λ o. joined o (expected select key row_of stats ys k)) (shown k)
              ∙ joined-expected stats xs ys k small) in
        (
          record {
            stats = merged;
            total = r.total + peer.total;
            rows_scanned = r.rows_scanned + peer.rows_scanned;
          },
          ap
              (λ m. m >>= λ merged. ok (record {
                stats = merged;
                total = r.total + peer.total;
                rows_scanned = r.rows_scanned + peer.rows_scanned;
              }))
              e,
          (at, only),
        )

    -- The rows of all peers, in the order of their results.
    abbrev pub all_rows : List (List A) → List A
    all_rows [] = []
    all_rows (rows ∷ peers) = rows ++ all_rows peers

    module _ (vars : (a : A) → HasCustomVars (row_of a).0) (matches : A → Result Bool)
        (matching : (a : A) → matches a ≡ ok (select a)) (stats : List Filter)
        (counts : are_counters 0 stats ≡ true) (safe : all_safe stats ≡ true) where
      nothing : Shows select key row_of stats [] no_stats_yet
      unfolding expected lookup is_present
      nothing = ((λ k. refl), tt)

      answer_stats-onto :
          (before : List A) (peers : List (List A)) (r : ResultSetStats)
          → length before + length (all_rows peers) ≤ exact_limit
          → Shows select key row_of stats before r
          → (r' : ResultSetStats) × (answer_stats matches key row_of stats (from_list stats) peers r
              ≡ ok r')
            × Shows select key row_of stats (before ++ all_rows peers) r'
      unfolding answer_stats
      answer_stats-onto before [] r small shows =
          (r, refl, subst (λ l. Shows select key row_of stats l r) (sym (append-nil before)) shows)
      answer_stats-onto before (rows ∷ peers) r small shows =
          let total = length-append rows (all_rows peers) in
          let (peer, e1, shows1) =
            gather_stats-Shows select key row_of exact vars matches matching stats counts safe []
              rows no_stats_yet (omega (arith, small, total)) nothing in
          let (r1, e2, shows2) =
            merge_stats-Shows stats before rows r peer (omega (arith, small, total)) shows shows1 in
          let (r2, e3, shows3) =
            answer_stats-onto (before ++ rows) peers r1
              (omega (arith, small, total, length-append before rows)) shows2 in
          (
            r2,
            ap
                  (λ m. m >>= λ peer. merge_stats r peer >>= λ r'.
                    answer_stats matches key row_of stats (from_list stats) peers r')
                  e1
                ∙ ap
                    (λ m.
                      m >>= λ r'. answer_stats matches key row_of stats (from_list stats) peers r')
                    e2
                ∙ e3,
            subst (λ l. Shows select key row_of stats l r2)
                (append_assoc before rows (all_rows peers)) shows3,
          )

      -- For a query of counters, which counts its Stats filters one by one (StatsGrouped is nil, as it
      -- is for a single Stats header, and without the optimisation of the parser), with safe filters
      -- on fewer rows than a float64 counts, none of which panics on a custom variable, and a float64
      -- addition that is exact for such numbers: gathering on each peer and merging the results in
      -- any order of the peers succeeds, and for each key the answer has one counter for each filter,
      -- which is the number of all peers' rows that are selected, have the key and match the filter;
      -- it has nothing for a key of no selected row.
      pub answer_stats-counts :
          (peers : List (List A))
          → length (all_rows peers) ≤ exact_limit
          → (r : ResultSetStats) × (answer_stats matches key row_of stats
                (from_list stats)
                peers
                no_stats_yet
              ≡ ok r)
            × ((k : Bytes) → lookup k r.stats ≡ expected select key row_of stats (all_rows peers) k)
      answer_stats-counts peers small =
          let (r, e, shows) =
            answer_stats-onto [] peers no_stats_yet (omega (arith, small)) nothing in
          (r, e, shows.0)
