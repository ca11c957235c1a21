-- ===== src/Response.antt =====
-- Building the rows of an answer: `gatherResultRows` of lmd/response.go for one peer, and
-- `PostProcessing` of lmd/rawresultset.go for the rows of all peers.
pub mod Page
pub mod Fronts
pub mod Window
pub mod Sorting
use lampd.Prelude.{
  ℕ, zero, suc, ◌+◌, Bool, true, false, not, ◌&&◌, ◌||◌, Option, none, some, List, [], ◌∷◌, ◌++◌,
  ltb, leb, ◌==◌, length, take, drop, if◌then◌else◌,
}
use lampd.Platform.{Platform}
use lampd.Request.{
  Request, OutputFormat, wrapped_json, optimize_result_limit, is_default_sort_order,
}
use lampd.Result.{Result, ok, err, ◌>>=◌, panic}

-- PeerResponse, and the fields of the same names of RawResultSet
pub record PeerResponse (A : Type 0) : Type 0 where
  pub rows : List A
  pub total : ℕ
  pub rows_scanned : ℕ

abbrev pub no_rows : {A : Type 0} → PeerResponse A
no_rows = record { rows = []; total = 0; rows_scanned = 0 }

module _ {A : Type 0} where
  -- The loop of `gatherResultRows`; `selects` is the filters of the request and `checkAuth`.
  unfoldable pub gather_rows :
      (A → Result Bool) → ℕ → Bool → List A → PeerResponse A → Result (PeerResponse A)
  gather_rows selects limit break_on_limit [] result = ok result
  gather_rows selects limit break_on_limit (row ∷ data_rows) result =
      let scanned = record result { rows_scanned = result.rows_scanned + 1 } in
      let counted = record scanned { total = scanned.total + 1 } in
      let kept = record counted { rows = counted.rows ++ row ∷ [] } in
      let skip = gather_rows selects limit break_on_limit data_rows scanned in
      let count_only = gather_rows selects limit break_on_limit data_rows counted in
      let keep = gather_rows selects limit break_on_limit data_rows kept in
      selects row >>= λ selected.
      if not selected
      then skip
      else if ltb limit counted.total
      then (if break_on_limit then ok counted else count_only)
      else keep

  -- One round of the loop of `BuildLocalResponse` that collects the results of the peers.
  unfoldable pub collect_result : PeerResponse A → PeerResponse A → PeerResponse A
  collect_result result sub = record {
    rows = result.rows ++ sub.rows;
    total = result.total + sub.total;
    rows_scanned = result.rows_scanned + sub.rows_scanned;
  }

  -- `raw.DataResult[offset:]`, which panics behind the end
  unfoldable pub slice_from : ℕ → List A → Result (List A)
  slice_from offset rows = if ltb (length rows) offset then err panic else ok (drop offset rows)

  -- `if limit != nil && *limit < len(rows) { rows = rows[0:*limit] }`
  unfoldable pub cut_limit : Option ℕ → List A → List A
  cut_limit none rows = rows
  cut_limit (some limit) rows = if ltb limit (length rows) then take limit rows else rows

abbrev is_wrapped : OutputFormat → Bool
is_wrapped wrapped_json = true
is_wrapped _ = false

abbrev pub is_empty {ℓ} : {A : Type ℓ} → List A → Bool
is_empty [] = true
is_empty (x ∷ xs) = false

module _ ⦃p : Platform⦄ where
  -- The limit of `gatherResultRows` for a store with `size` rows.
  unfoldable pub gather_limit : Request → ℕ → ℕ
  unfolding optimize_result_limit
  gather_limit req size = elim (optimize_result_limit req) [
    | none ↦ size + 1
    | some limit ↦ if limit == 0 then size + 1 else limit
  ]

module _ ⦃p : Platform⦄ {A : Type 0} where
  -- `gatherResultRows`, for the rows `data_rows` that GetPreFilteredData returns of a store with
  -- `size` rows
  unfoldable pub gather_result_rows :
      (A → Result Bool) → Request → ℕ → List A → Result (PeerResponse A)
  unfolding gather_rows gather_limit
  gather_result_rows selects req size data_rows =
      gather_rows selects (gather_limit req size) (not (is_wrapped req.output_format)) data_rows
        no_rows

  -- `PostProcessing` of a request with `backends` backends; `sort_rows` is sort.Sort with `Less`.
  unfoldable pub post_process : (List A → List A) → Request → ℕ → PeerResponse A → Result (List A)
  unfolding slice_from cut_limit is_default_sort_order
  post_process sort_rows req backends raw =
      if not (is_empty req.stats)
      then ok raw.rows
      else if ltb raw.total req.offset
      then ok []
      else do
        let sorted =
            if not (is_empty req.sort) && (leb 1 backends || not (is_default_sort_order req))
            then sort_rows raw.rows
            else raw.rows
        rows ← if ltb 0 req.offset then slice_from req.offset sorted else ok sorted
        ok (cut_limit req.limit rows)

  -- The results of the selected peers, each given by the size of its store and the rows that
  -- GetPreFilteredData returns, in the order in which they arrive.
  unfoldable pub collect_results :
      (A → Result Bool) → Request → List (ℕ × List A) → PeerResponse A → Result (PeerResponse A)
  unfolding gather_result_rows collect_result
  collect_results selects req [] result = ok result
  collect_results selects req ((size, data_rows) ∷ peers) result =
      gather_result_rows selects req size data_rows >>= λ sub.
      collect_results selects req peers (collect_result result sub)

  -- The rows of the answer: `BuildLocalResponse` and `PostProcessing`, as `NewResponse` calls them.
  unfoldable pub local_rows :
      (A → Result Bool) → (List A → List A) → Request → List (ℕ × List A) → Result (List A)
  unfolding collect_results post_process
  local_rows selects sort_rows req peers = collect_results selects req peers no_rows >>= λ raw.
      post_process sort_rows req (length peers) raw
