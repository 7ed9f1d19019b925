-- ===== src/Boost.antt =====
-- What the program takes from Boost.StringAlgo, whose code is not part of the repository: the
-- operations as a record that the definitions are given.
use extractor.Base.{ℕ, Bool, List, Bytes}

pub record Boost : Type 0 where
  -- `boost::trim(s)`
  pub trim : Bytes → Bytes
  -- `boost::split(names, s, is_any_of(" \t"), token_compress_on)`: each name as its begin and end
  pub split : Bytes → List (ℕ × ℕ)
  -- `boost::contains(s, part)`
  pub contains : Bytes → Bytes → Bool
  -- `boost::replace_all(s, part, by)`
  pub replace_all : Bytes → Bytes → Bytes → Bytes
