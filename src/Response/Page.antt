-- ===== src/Response/Page.antt =====
-- The page of rows that a request without a sort header returns.
use Prim.Native.Nat.{min}
use mathlib.Core.List.{append-nil, append_assoc}
use lampd.Prelude.{
  ℕ, zero, suc, ◌+◌, ◌-◌, ◌≤◌, ◌<◌, ◌≡◌, refl, Bool, true, false, List, [], ◌∷◌, ◌++◌, arith,
  length, take, if◌then◌else◌,
}
use lampd.Response.{PeerResponse, gather_rows}
use lampd.Result.{Result, ok, err}

-- The total that the loop reports of `n` selected rows: it stops behind the limit, or counts on.
abbrev pub reported : Bool → ℕ → ℕ → ℕ
reported brk limit n = if brk then min (limit + 1) n else n

module _ {A : Type 0} where
  abbrev pub selected_rows : (A → Bool) → List A → List A
  selected_rows s [] = []
  selected_rows s (row ∷ rows) = if s row then row ∷ selected_rows s rows else selected_rows s rows

  -- The rows and the total of a result, without the count of the rows scanned.
  abbrev pub outcome : Result (PeerResponse A) → Result (List A × ℕ)
  outcome (ok r) = ok (r.rows, r.total)
  outcome (err e) = err e

  take_none : (limit t : ℕ) (xs : List A) → limit ≤ t → take (limit - t) xs ≡ []
  take_none limit t xs h = let e : limit - t ≡ 0 = omega arith in rw e

  take_one :
      (limit t : ℕ) (row : A) (xs : List A)
      → t < limit
      → take (limit - t) (row ∷ xs) ≡ row ∷ take (limit - (t + 1)) xs
  take_one limit t row xs h = let e : limit - t ≡ suc (limit - (t + 1)) = omega arith in rw e

  append-take_one :
      (rows : List A) (limit t : ℕ) (row : A) (xs : List A)
      → t < limit
      → rows ++ take (limit - t) (row ∷ xs) ≡ (rows ++ row ∷ []) ++ take (limit - (t + 1)) xs
  append-take_one rows limit t row xs h = rw (take_one limit t row xs h, append_assoc)

  append-take_nil : (rows : List A) (n : ℕ) → rows ++ take n [] ≡ rows
  append-take_nil rows zero = append-nil rows
  append-take_nil rows (suc n) = append-nil rows

  module _ (selects : A → Result Bool) (s : A → Bool)
      (total_s : (row : A) → selects row ≡ ok (s row)) (limit : ℕ) where
    -- When every match succeeds, the loop of one peer returns without an error. Its rows are the rows
    -- that it starts from and the first `limit - total` of the selected rows, and its total counts all
    -- selected rows, or stops at `limit + 1` when the loop breaks on the limit.
    pub gather_rows-outcome :
        (brk : Bool) (data_rows : List A) (before : PeerResponse A)
        → (brk ≡ true → before.total ≤ limit)
        → outcome (gather_rows selects limit brk data_rows before)
          ≡ ok (
            before.rows ++ take (limit - before.total) (selected_rows s data_rows),
            reported brk limit (before.total + length (selected_rows s data_rows)),
          )
    unfolding gather_rows
    gather_rows-outcome true [] before h =
        ground (arith, h refl, append-take_nil before.rows (limit - before.total))
    gather_rows-outcome false [] before h =
        ground (arith, append-take_nil before.rows (limit - before.total))
    gather_rows-outcome true (row ∷ data_rows) before h =
        let scanned = record before { rows_scanned = before.rows_scanned + 1 } in
        let kept = record before {
          rows = before.rows ++ row ∷ [];
          total = before.total + 1;
          rows_scanned = before.rows_scanned + 1;
        } in
        let rest = selected_rows s data_rows in
        ground (
          arith,
          h refl,
          total_s row,
          gather_rows-outcome true data_rows scanned h,
          gather_rows-outcome true data_rows kept,
          take_none limit before.total (row ∷ rest),
          append-nil before.rows,
          append-take_one before.rows limit before.total row rest,
        )
    gather_rows-outcome false (row ∷ data_rows) before h =
        let scanned = record before { rows_scanned = before.rows_scanned + 1 } in
        let counted = record scanned { total = before.total + 1 } in
        let kept = record counted { rows = before.rows ++ row ∷ [] } in
        let rest = selected_rows s data_rows in
        ground (
          arith,
          total_s row,
          gather_rows-outcome false data_rows scanned h,
          gather_rows-outcome false data_rows counted (λ e. cc),
          gather_rows-outcome false data_rows kept (λ e. cc),
          take_none limit before.total (row ∷ rest),
          take_none limit (before.total + 1) rest,
          append-take_one before.rows limit before.total row rest,
        )
