-- ===== src/Response/Window.antt =====
-- The rows that a request without sort and stats headers returns are the window of all selected
-- rows that its limit and offset ask for, although each peer's result is cut off early.
use Prim.Native.Nat.{min}
use mathlib.Core.Path.{subst}
use mathlib.Core.List.{append-nil, append_assoc}
use lampd.Prelude.{
  ℕ, suc, ◌+◌, ◌-◌, ◌≤◌, ◌≡◌, refl, sym, ap, ◌∙◌, Bool, true, false, not, ◌⊎◌, Option, none, some,
  List, [], ◌∷◌, ◌++◌, arith, length, take, drop, Option-cases, inl, inr, length-append,
  length-take,
}
use lampd.Platform.{Platform}
use lampd.Request.{Request, optimize_result_limit, is_default_sort_order, is_default_sort}
use lampd.Response.{
  PeerResponse, no_rows, gather_rows, gather_limit, gather_result_rows, collect_result,
  collect_results, slice_from, cut_limit, post_process, local_rows, is_wrapped,
}
use lampd.Response.Fronts.{
  take-append_take, take-append_front, take-drop, drop_none, take_all, take_none, front_all,
}
use lampd.Response.Page.{selected_rows, outcome, reported, gather_rows-outcome}
use lampd.Result.{Result, ok, err}

module _ {A : Type 0} where
  -- The collected rows and total agree with the full list of rows up to its first `n` rows.
  record Agrees (n : ℕ) (full : List A) (raw : PeerResponse A) : Type 0 where
    front : take n raw.rows ≡ take n full
    counts :
        ((raw.total ≡ length raw.rows) × (raw.total ≡ length full))
        ⊎ ((n ≤ length raw.rows) × (n ≤ raw.total))

  -- The result of one peer with `selected` rows, read with a limit of `k`.
  collect_result-Agrees :
      (n k : ℕ) (brk : Bool) (full selected : List A) (raw sub : PeerResponse A)
      → (length selected ≤ k) ⊎ (n ≤ k)
      → sub.rows ≡ take k selected
      → sub.total ≡ reported brk k (length selected)
      → Agrees n full raw
      → Agrees n (full ++ selected) (collect_result raw sub)
  unfolding collect_result
  collect_result-Agrees n k brk full selected raw sub enough rows total agrees =
      let len : length sub.rows ≡ min k (length selected) =
        ap length rows ∙ length-take k selected in
      record {
        front =
            ap (λ r. take n (raw.rows ++ r)) rows
            ∙ take-append_take n k raw.rows selected enough
            ∙ take-append_front n raw.rows full selected agrees.front;
        counts =
            add_counts n k brk (length selected) len total enough (length-append raw.rows sub.rows)
              (length-append full selected) agrees.counts;
      }
    where
      add_counts :
          (n k : ℕ) (brk : Bool) (c : ℕ) {t t' r r' f a b : ℕ}
          → r' ≡ min k c
          → t' ≡ reported brk k c
          → (c ≤ k) ⊎ (n ≤ k)
          → a ≡ r + r'
          → b ≡ f + c
          → ((t ≡ r) × (t ≡ f)) ⊎ ((n ≤ r) × (n ≤ t))
          → ((t + t' ≡ a) × (t + t' ≡ b)) ⊎ ((n ≤ a) × (n ≤ t + t'))
      add_counts n k true c e1 e2 h e3 e4 h' = ground arith
      add_counts n k false c e1 e2 h e3 e4 h' = ground arith

module _ ⦃p : Platform⦄ where
  limits_some :
      (req : Request) (l : ℕ)
      → req.sort ≡ []
      → req.limit ≡ some l
      → (size : ℕ) → (suc size ≤ gather_limit req size) ⊎ (l + req.offset ≤ gather_limit req size)
  unfolding gather_limit optimize_result_limit is_default_sort_order is_default_sort
  limits_some req l sorted limited size = ground (arith, sorted, limited)

  limits_none : (req : Request) → req.limit ≡ none → (size : ℕ) → suc size ≤ gather_limit req size
  unfolding gather_limit optimize_result_limit
  limits_none req limited size = ground (arith, limited)

module _ ⦃p : Platform⦄ {A : Type 0} where
  -- The selected rows of all peers, one peer behind the other.
  abbrev pub all_selected : (A → Bool) → List (ℕ × List A) → List A
  all_selected s [] = []
  all_selected s ((size, data_rows) ∷ peers) = selected_rows s data_rows ++ all_selected s peers

  -- A peer's prefiltered rows are no more than its store has.
  pub data IsWithin : List (ℕ × List A) → Type 0 where
    none_left : IsWithin []
    next_peer :
        (size : ℕ) (data_rows : List A) (peers : List (ℕ × List A))
        → length data_rows ≤ size
        → IsWithin peers
        → IsWithin ((size, data_rows) ∷ peers)

  length-selected_rows :
      (s : A → Bool) (rows : List A) → length (selected_rows s rows) ≤ length rows
  length-selected_rows s [] = omega arith
  length-selected_rows s (row ∷ rows) = ground (arith, length-selected_rows s rows)

  outcome_ok :
      (r : Result (PeerResponse A)) (rows : List A) (total : ℕ)
      → outcome r ≡ ok (rows, total)
      → (sub : PeerResponse A) × (r ≡ ok sub) × (sub.rows ≡ rows) × (sub.total ≡ total)
  outcome_ok (ok sub) rows total h = (sub, refl, cc, cc)
  outcome_ok (err e) rows total h = absurd (cc)

  counts_from_none :
      (k : ℕ) (brk : Bool) (selected : List A)
      → ◌≡◌ {A = Result (List A × ℕ)}
          (ok (take (k - 0) selected, reported brk k (0 + length selected)))
          (ok (take k selected, reported brk k (length selected)))
  counts_from_none k brk selected =
      let e : k - 0 ≡ k = omega arith in
      let e' : 0 + length selected ≡ length selected = omega arith in rw (e, e')

  module _ (selects : A → Result Bool) (s : A → Bool)
      (total_s : (row : A) → selects row ≡ ok (s row)) (req : Request) where
    gather_result_rows-parts :
        (size : ℕ) (data_rows : List A)
        → (sub : PeerResponse A) × (gather_result_rows selects req size data_rows ≡ ok sub)
          × (sub.rows ≡ take (gather_limit req size) (selected_rows s data_rows))
          × (sub.total
              ≡ reported
                  (not (is_wrapped req.output_format))
                  (gather_limit req size)
                  (length (selected_rows s data_rows)))
    unfolding gather_result_rows
    gather_result_rows-parts size data_rows =
        let k = gather_limit req size in
        let brk = not (is_wrapped req.output_format) in
        let selected = selected_rows s data_rows in
        outcome_ok (gather_rows selects k brk data_rows no_rows) (take k selected)
          (reported brk k (length selected))
          (gather_rows-outcome selects s total_s k brk data_rows no_rows (λ e. omega arith)
            ∙ counts_from_none k brk selected)

    collect_results-Agrees :
        (n : ℕ) (peers : List (ℕ × List A)) (full : List A) (raw : PeerResponse A)
        → ((size : ℕ) → (suc size ≤ gather_limit req size) ⊎ (n ≤ gather_limit req size))
        → IsWithin peers
        → Agrees n full raw
        → (end : PeerResponse A) × (collect_results selects req peers raw ≡ ok end)
          × Agrees n (full ++ all_selected s peers) end
    unfolding collect_results
    collect_results-Agrees n [] full raw limits within agrees =
        (raw, refl, subst (λ f. Agrees n f raw) (sym (append-nil full)) agrees)
    collect_results-Agrees n ((size, data_rows) ∷ peers) full raw limits
          (next_peer _ _ _ fits within) agrees =
        let k = gather_limit req size in
        let selected = selected_rows s data_rows in
        let (sub, e, rows, total) = gather_result_rows-parts size data_rows in
        let few = length-selected_rows s data_rows in
        let here =
          collect_result-Agrees n k (not (is_wrapped req.output_format)) full selected raw sub
            (elim (limits size) [ inl h ↦ inl (omega arith) | inr h ↦ inr h ]) rows total agrees in
        let (end, e', agrees') =
          collect_results-Agrees n peers (full ++ selected) (collect_result raw sub) limits within
            here in
        (
          end,
          rw (e, e'),
          subst (λ f. Agrees n f end) (append_assoc full selected (all_selected s peers)) agrees',
        )

  cut_limit-take : (l : ℕ) (rows : List A) → cut_limit (some l) rows ≡ take l rows
  unfolding cut_limit
  cut_limit-take l rows = ground (arith, take_all l rows)

  cut_limit-none : (rows : List A) → cut_limit none rows ≡ rows
  unfolding cut_limit
  cut_limit-none rows = refl

  -- `PostProcessing` of an unsorted request, from the rows that agree with the full list.
  post_process-Agrees :
      (sort_rows : List A → List A) (req : Request) (backends n : ℕ) (full : List A)
      (raw : PeerResponse A)
      → req.sort ≡ []
      → req.stats ≡ []
      → req.offset ≤ n
      → Agrees n full raw
      → (post_process sort_rows req backends raw
          ≡ ok (cut_limit req.limit (drop req.offset raw.rows)))
        ⊎ ((post_process sort_rows req backends raw ≡ ok []) × (length full ≤ req.offset))
  unfolding post_process slice_from
  post_process-Agrees sort_rows req backends n full raw sorted counted reach agrees =
      ground (arith, sorted, counted, agrees.counts)

  -- The rows that a limit leaves of a list.
  abbrev pub limit_rows : Option ℕ → List A → List A
  limit_rows none rows = rows
  limit_rows (some l) rows = take l rows

  module _ (selects : A → Result Bool) (s : A → Bool)
      (total_s : (row : A) → selects row ≡ ok (s row)) (sort_rows : List A → List A) (req : Request)
      (sorted : req.sort ≡ []) (counted : req.stats ≡ []) where
    local_rows-some :
        (l : ℕ) (peers : List (ℕ × List A))
        → req.limit ≡ some l
        → IsWithin peers
        → local_rows selects sort_rows req peers
          ≡ ok (take l (drop req.offset (all_selected s peers)))
    unfolding local_rows
    local_rows-some l peers limited within =
        let all = all_selected s peers in
        let n = l + req.offset in
        let start : Agrees {A = A} n [] no_rows = record {
          front = refl;
          counts = inl (refl, refl);
        } in
        let (raw, e, agrees) =
          collect_results-Agrees selects s total_s req n peers [] no_rows
            (limits_some req l sorted limited) within start in
        let run : local_rows selects sort_rows req peers
            ≡ post_process sort_rows req (length peers) raw =
          rw e in
        elim (post_process-Agrees sort_rows req (length peers) n all raw sorted counted
          (omega arith) agrees) [
            | inl e' ↦
                run
                ∙ e'
                ∙ ap ok (
                    ap (λ m. cut_limit m (drop req.offset raw.rows)) limited
                    ∙ cut_limit-take l (drop req.offset raw.rows)
                    ∙ take-drop l req.offset n raw.rows refl
                    ∙ ap (drop req.offset) agrees.front
                    ∙ sym (take-drop l req.offset n all refl))
            | inr (e', few) ↦
                run ∙ e' ∙ ap ok (sym (ap (take l) (drop_none req.offset all few) ∙ take_none l))
          ]

    local_rows-none :
        (peers : List (ℕ × List A))
        → req.limit ≡ none
        → IsWithin peers
        → local_rows selects sort_rows req peers ≡ ok (drop req.offset (all_selected s peers))
    unfolding local_rows
    local_rows-none peers limited within =
        let all = all_selected s peers in
        let n = suc (req.offset + length all) in
        let start : Agrees {A = A} n [] no_rows = record {
          front = refl;
          counts = inl (refl, refl);
        } in
        let (raw, e, agrees) =
          collect_results-Agrees selects s total_s req n peers [] no_rows
            (λ size. inl (limits_none req limited size)) within start in
        let run : local_rows selects sort_rows req peers
            ≡ post_process sort_rows req (length peers) raw =
          rw e in
        elim (post_process-Agrees sort_rows req (length peers) n all raw sorted counted
          (omega arith) agrees) [
            | inl e' ↦
                run
                ∙ e'
                ∙ ap ok (
                    ap (λ m. cut_limit m (drop req.offset raw.rows)) limited
                    ∙ cut_limit-none (drop req.offset raw.rows)
                    ∙ ap (drop req.offset) (front_all n raw.rows all (omega arith) agrees.front))
            | inr (e', few) ↦ run ∙ e' ∙ ap ok (sym (drop_none req.offset all few))
          ]

    -- For a request without a Sort and a Stats header, when every match succeeds and no peer has more
    -- prefiltered rows than its store: the answer is the rows that match on any peer, peer by peer,
    -- less the first `offset` rows, up to the limit if there is one. It is never an error, although
    -- each peer stops to collect at its own limit.
    pub local_rows-window :
        (peers : List (ℕ × List A))
        → IsWithin peers
        → local_rows selects sort_rows req peers
          ≡ ok (limit_rows req.limit (drop req.offset (all_selected s peers)))
    local_rows-window peers within = elim (Option-cases req.limit) [
      | inl e ↦
          local_rows-none peers e within
          ∙ ap (λ m. ok (limit_rows m (drop req.offset (all_selected s peers)))) (sym e)
      | inr (l, e) ↦
          local_rows-some l peers e within
          ∙ ap (λ m. ok (limit_rows m (drop req.offset (all_selected s peers)))) (sym e)
    ]
