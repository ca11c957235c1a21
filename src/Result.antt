-- ===== src/Result.antt =====
-- Errors of the request parser, one for each message of the source, and the runtime panics.
use lampd.Prelude.{ℕ, zero, suc, ◌≡◌, refl, ◌⊎◌, inl, inr, List, [], ◌∷◌}

pub data Error : Type 0 where
  bad_request no_such_table : Error
  filter_header stats_header unrecognized_operator number_conversion custom_variable_form : Error
  invalid_regex not_positive not_enough_filter no_filter_to_negate : Error
  syntax_error unrecognized_header bad_response_header bad_number bad_sort_header : Error
  size_mismatch bad_sort_direction bad_output_format bad_on_off empty_auth_user
        unknown_sort_column :
      Error
  -- a nil dereference, an index out of range or log.Panicf
  panic : Error

pub data Result {ℓ} (A : Type ℓ) : Type ℓ where
  err : Error → Result A
  ok : A → Result A

infixl 5 ◌>>=◌
abbrev pub ◌>>=◌ {ℓ ℓ'} : {A : Type ℓ} {B : Type ℓ'} → Result A → (A → Result B) → Result B
err e >>= next = err e
ok a >>= next = next a

module _ {A B : Type 0} where
  -- What a successful bind went through.
  pub bind_ok :
      (first : Result A) (next : A → Result B) {end : B}
      → (first >>= next) ≡ ok end
      → (value : A) × (first ≡ ok value) × (next value ≡ ok end)
  bind_ok (err wrong) next e = absurd (cc)
  bind_ok (ok value) next e = (value, refl, e)

pub Result-cases {ℓ} :
    {A : Type ℓ} (r : Result A) → ((a : A) × (r ≡ ok a)) ⊎ ((e : Error) × (r ≡ err e))
Result-cases (ok a) = inl (a, refl)
Result-cases (err e) = inr (e, refl)

-- xs[i] = f(xs[i]); behind the end this panics
unfoldable pub update_at : {A : Type 0} → (A → Result A) → ℕ → List A → Result (List A)
update_at f i [] = err panic
update_at f zero (x ∷ xs) = f x >>= λ y. ok (y ∷ xs)
update_at f (suc i) (x ∷ xs) = update_at f i xs >>= λ ys. ok (x ∷ ys)
