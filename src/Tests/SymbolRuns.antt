-- ===== src/Tests/SymbolRuns.antt =====
-- The symbol `a_Z9`.
use rs_stellar_contract_env.Prelude.{ℕ, ◌≡◌, inl, inr, refl, [], ◌∷◌, List, arith}
use rs_stellar_contract_env.Symbol.{
  bad_char, too_long, invalid, encode_char, encode_from, valid, try_from_bytes, try_from_body,
  to_string,
}
use rs_stellar_contract_env.Symbol.Decoding.{to_string-try_from_bytes}

abbrev four : List ℕ
four = 97 ∷ 95 ∷ 90 ∷ 57 ∷ []

to_string-try_from_bytes_example :
    (body : ℕ) × (try_from_bytes four ≡ valid body)
    × (try_from_body body ≡ valid body)
    × (to_string body ≡ four)
to_string-try_from_bytes_example =
    to_string-try_from_bytes four
      (
        inr (inr (inr (omega arith, omega arith))),
        (
          inl refl,
          (inr (inr (inl (omega arith, omega arith))), (inr (inl (omega arith, omega arith)), tt)),
        ),
      )
      (omega arith)

-- The body of `a_Z9`.
four_body : try_from_bytes four ≡ valid 9967947
unfolding try_from_bytes encode_from encode_char
four_body = refl

-- A character outside of `[a-zA-Z0-9_]` is refused, and so is a tenth character.
space_refused : try_from_bytes (97 ∷ 32 ∷ []) ≡ invalid (bad_char 32)
unfolding try_from_bytes encode_from encode_char
space_refused = refl

ten_refused :
    try_from_bytes (95 ∷ 95 ∷ 95 ∷ 95 ∷ 95 ∷ 95 ∷ 95 ∷ 95 ∷ 95 ∷ 95 ∷ []) ≡ invalid (too_long 10)
unfolding try_from_bytes encode_from encode_char
ten_refused = refl
