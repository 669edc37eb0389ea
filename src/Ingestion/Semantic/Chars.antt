-- ===== src/Ingestion/Semantic/Chars.antt =====
-- The tables of Unicode that `char`'s methods read. They change with the version of Rust, so they are an
-- argument of what reads a page.
use eal_sync.Prelude.{ℕ, Bool}
use eal_sync.Prelude.Text.{Text}

pub record CharTable : Type 0 where
  pub is_alphanumeric : ℕ → Bool
  pub is_alphabetic : ℕ → Bool
  pub is_numeric : ℕ → Bool
  pub is_uppercase : ℕ → Bool
  pub to_lowercase : ℕ → Text
