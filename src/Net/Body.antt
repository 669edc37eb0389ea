-- ===== src/Net/Body.antt =====
-- The bounded body reader that src/ingestion/network/response.rs and runtime-worker/src/api.rs both
-- write: chunks are appended while their sum stays within the limit.
pub mod Laws
use eal_sync.Prelude.{ℕ, ◌+◌, List, [], ◌∷◌, ◌++◌, ltb, length, min, ◌^◌, ◌-◌, if◌then◌else◌}
use eal_sync.Prelude.Text.{Text}
use eal_sync.Prelude.Result.{Result, ok, err}

abbrev usize_max : ℕ
usize_max = 2 ^ 64 - 1

-- `a.saturating_add(b)` on usize
abbrev pub saturating_add : ℕ → ℕ → ℕ
saturating_add a b = min (a + b) usize_max

module _ {E : Type 0} (unreadable : Text → E) (too_large : E) (max_bytes : ℕ) where
  -- the loop with the body read so far; a chunk is its bytes or the text of a transport error
  unfoldable pub read_chunks : List ℕ → List (Result Text (List ℕ)) → Result E (List ℕ)
  read_chunks body [] = ok body
  read_chunks body (err e ∷ chunks) = err (unreadable e)
  read_chunks body (ok chunk ∷ chunks) =
      let rest = read_chunks (body ++ chunk) chunks in
      if ltb max_bytes (saturating_add (length body) (length chunk)) then err too_large else rest

  unfoldable pub read_bounded : List (Result Text (List ℕ)) → Result E (List ℕ)
  read_bounded chunks = read_chunks [] chunks

-- A stream that delivers every chunk.
abbrev pub delivered : List (List ℕ) → List (Result Text (List ℕ))
delivered [] = []
delivered (c ∷ cs) = ok c ∷ delivered cs

abbrev pub joined : List (List ℕ) → List ℕ
joined [] = []
joined (c ∷ cs) = c ++ joined cs
