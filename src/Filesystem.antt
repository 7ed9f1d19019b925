-- ===== src/Filesystem.antt =====
-- libwm/filesystem.h and libwm/filesystem.cc: questions about paths. What the file system answers
-- is a parameter.
use extractor.Base.{
  ◌≡◌, ◌↔◌, refl, ◌∙◌, Bool, true, false, not, inl, inr, List, [], ◌∷◌, ◌++◌, Bytes, bytes_eq,
  bytes_eq_iff, Bool-cases, if◌then◌else◌, Outcome, ok, fault, undefined, ◌>>=◌,
}

module _ (exists : Bytes → Outcome Bool) (access : Bytes → Bool) where
  -- `isExecutable(pathname)`, where `access` tells whether the call with `X_OK` succeeds
  unfoldable pub is_executable : Bytes → Outcome Bool
  is_executable pathname = do
    there ← exists pathname
    (if not there then ok false else (if not (access pathname) then ok false else ok true))

-- `isPrefix(possiblePrefix, path)` on the elements of the paths: `std::equal` reads the element of
-- the second path even behind its end.
unfoldable pub is_prefix : List Bytes → List Bytes → Outcome Bool
is_prefix [] path = ok true
is_prefix (x ∷ prefix) [] = fault undefined
is_prefix (x ∷ prefix) (y ∷ path) =
    let rest = is_prefix prefix path in if bytes_eq x y then rest else ok false

-- `path` starts with `prefix`.
abbrev pub Starts : List Bytes → List Bytes → Type 0
Starts prefix path = (rest : List Bytes) × path ≡ prefix ++ rest

-- `path` ends within `prefix`.
abbrev pub Exceeds : List Bytes → List Bytes → Type 0
Exceeds prefix path = (x : Bytes) × (rest : List Bytes) × prefix ≡ path ++ x ∷ rest

is_prefix-same :
    (x y : Bytes) (prefix path : List Bytes)
    → x ≡ y
    → is_prefix (x ∷ prefix) (y ∷ path) ≡ is_prefix prefix path
unfolding is_prefix
is_prefix-same x y prefix path same = rw ((bytes_eq_iff x y).1 same, is_prefix) refl

is_prefix-differs :
    (x y : Bytes) (prefix path : List Bytes)
    → bytes_eq x y ≡ false
    → is_prefix (x ∷ prefix) (y ∷ path) ≡ ok false
unfolding is_prefix
is_prefix-differs x y prefix path differs = rw (differs, is_prefix) refl

is_prefix-append : (prefix rest : List Bytes) → is_prefix prefix (prefix ++ rest) ≡ ok true
unfolding is_prefix
is_prefix-append [] rest = refl
is_prefix-append (x ∷ prefix) rest =
    is_prefix-same x x prefix (prefix ++ rest) refl ∙ is_prefix-append prefix rest

is_prefix-Starts : (prefix path : List Bytes) → is_prefix prefix path ≡ ok true → Starts prefix path
unfolding is_prefix
is_prefix-Starts [] path h = (path, refl)
is_prefix-Starts (x ∷ prefix) [] h = cc
is_prefix-Starts (x ∷ prefix) (y ∷ path) h = elim (Bool-cases (bytes_eq x y)) [
  | inl same ↦
      let equal : x ≡ y = (bytes_eq_iff x y).0 same in
      let (rest, e) =
        is_prefix-Starts prefix path (rw (is_prefix-same x y prefix path equal) at h) in
      (rest, cc)
  | inr differs ↦ absurd (let e = rw (is_prefix-differs x y prefix path differs) at h in cc)
]

is_prefix-longer :
    (path rest : List Bytes) (x : Bytes) → is_prefix (path ++ x ∷ rest) path ≡ fault undefined
unfolding is_prefix
is_prefix-longer [] rest x = refl
is_prefix-longer (y ∷ path) rest x =
    is_prefix-same y y (path ++ x ∷ rest) path refl ∙ is_prefix-longer path rest x

is_prefix-Exceeds :
    (prefix path : List Bytes) → is_prefix prefix path ≡ fault undefined → Exceeds prefix path
unfolding is_prefix
is_prefix-Exceeds [] path h = cc
is_prefix-Exceeds (x ∷ prefix) [] h = (x, prefix, refl)
is_prefix-Exceeds (x ∷ prefix) (y ∷ path) h = elim (Bool-cases (bytes_eq x y)) [
  | inl same ↦
      let equal : x ≡ y = (bytes_eq_iff x y).0 same in
      let (z, rest, e) =
        is_prefix-Exceeds prefix path (rw (is_prefix-same x y prefix path equal) at h) in
      (z, rest, cc)
  | inr differs ↦ absurd (let e = rw (is_prefix-differs x y prefix path differs) at h in cc)
]

-- The answer is yes exactly where the second path starts with the elements of the first, and the
-- end of the second path is read exactly where the first goes on behind it.
pub is_prefix_iff :
    (prefix path : List Bytes)
    → ((is_prefix prefix path ≡ ok true) ↔ Starts prefix path)
      × ((is_prefix prefix path ≡ fault undefined) ↔ Exceeds prefix path)
is_prefix_iff prefix path = (
  (is_prefix-Starts prefix path, λ (rest, e). rw e (is_prefix-append prefix rest)),
  (is_prefix-Exceeds prefix path, λ (x, rest, e). rw e (is_prefix-longer path rest x)),
)
