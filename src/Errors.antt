-- ===== src/Errors.antt =====
-- Error values: internal/errors, the wrapping of `fmt.Errorf` with `%w`, and `errors.Is`.
use marketplace_simulator_pr.Common.{
  ℕ, String, ◌≡◌, refl, ◌⊎◌, inl, inr, Bool, true, false, List, [], ◌∷◌,
}

-- A message is kept as its pieces: fixed text and decimal numbers.
pub data Piece : Type 0 where
  lit : String → Piece
  dec : ℕ → Piece
  raw : List ℕ → Piece

abbrev pub Message : Type 0
Message = List Piece

-- The codes of gRPC statuses that the program names.
pub data Code : Type 0 where
  canceled invalid_argument not_found already_exists permission_denied unauthenticated : Code
  resource_exhausted failed_precondition aborted out_of_range internal unknown : Code

-- `status` is what `status.Error` of grpc builds; `wrap` is `fmt.Errorf("…: %w", err)`.
pub data Error : Type 0 where
  product_not_found : ℕ → Error
  insufficient_product : ℕ → ℕ → ℕ → Error
  optimistic_lock : Error
  plain : Message → Error
  status : Code → Message → Error
  wrap : String → Error → Error

-- The targets that the program gives to `errors.Is`.
pub data Target : Type 0 where
  any_not_found any_insufficient any_optimistic_lock : Target

-- The `Is` methods look at the type only, and `errors.Is` goes down the chain.
unfoldable pub is : Error → Target → Bool
is (product_not_found sku) any_not_found = true
is (insufficient_product sku have want) any_insufficient = true
is optimistic_lock any_optimistic_lock = true
is (wrap prefix e) t = is e t
is _ _ = false

-- The `Error` methods.
unfoldable pub error_text : Error → Message
error_text (product_not_found sku) = lit "product not found" ∷ lit ": sku " ∷ dec sku ∷ []
error_text (insufficient_product sku have want) =
    lit "insufficient product"
    ∷ lit ": sku "
    ∷ dec sku
    ∷ lit ", have "
    ∷ dec want
    ∷ lit ", want "
    ∷ dec want
    ∷ []
error_text optimistic_lock = lit "optimistic lock failed, retry required" ∷ []
error_text (plain m) = m
error_text (status c m) = m
error_text (wrap prefix e) = lit prefix ∷ lit ": " ∷ error_text e

pub data Result {ℓ} (A : Type ℓ) : Type ℓ where
  ok : A → Result A
  err : Error → Result A

-- `if err != nil { return nil, fmt.Errorf(prefix: %w, err) }` on a computed result.
abbrev pub wrap_err {ℓ} : {A : Type ℓ} → String → Result A → Result A
wrap_err prefix (ok a) = ok a
wrap_err prefix (err e) = err (wrap prefix e)

pub Result-cases {ℓ} :
    {A : Type ℓ} (r : Result A) → ((a : A) × (r ≡ ok a)) ⊎ ((e : Error) × (r ≡ err e))
Result-cases (ok a) = inl (a, refl)
Result-cases (err e) = inr (e, refl)
