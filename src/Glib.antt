-- ===== src/Glib.antt =====
-- The two functions of glib that src/softbts.c and src/logger.c make texts with, as their
-- documentation has them.
use soft_bts.Base.{ℕ, ◌<◌, ◌≡◌, List, [], ◌∷◌, ◌++◌, length}

pub record Glib : Type 0 where
  -- `g_strjoin(separator, texts, NULL)`; no separator is the empty one.
  pub strjoin : List ℕ → List (List ℕ) → List ℕ
  -- What a buffer of so many bytes holds after `g_snprintf` of a text.
  pub snprintf : ℕ → List ℕ → List ℕ

abbrev pub concat : List (List ℕ) → List ℕ
concat [] = []
concat (t ∷ ts) = t ++ concat ts

pub record IsLawful (g : Glib) : Type 0 where
  pub joins : (ts : List (List ℕ)) → g.strjoin [] ts ≡ concat ts
  pub fits : (n : ℕ) (t : List ℕ) → length t < n → g.snprintf n t ≡ t
