-- ===== src/FileMagic/Equality.antt =====
-- libwm/filemagic.cc: `operator==` of MIME types.
use extractor.Base.{
  ◌≡◌, ◌↔◌, refl, true, ◌&&◌, [], ◌∷◌, Bytes, Dict, bytes_eq, bytes_eq_iff, and-true,
}
use extractor.FileMagic.{MimeType, parameters_eq, mime_eq}

parameters_eq-true : (ps qs : Dict Bytes Bytes) → parameters_eq ps qs ≡ true → ps ≡ qs
unfolding parameters_eq
parameters_eq-true [] [] h = refl
parameters_eq-true [] (q ∷ qs) h = cc
parameters_eq-true (p ∷ ps) [] h = cc
parameters_eq-true ((n, v) ∷ ps) ((m, w) ∷ qs) h =
    let (first, rest) = and-true (bytes_eq n m && bytes_eq v w) (parameters_eq ps qs) h in
    let (names, values) = and-true (bytes_eq n m) (bytes_eq v w) first in
    rw ((bytes_eq_iff n m).0 names, (bytes_eq_iff v w).0 values, parameters_eq-true ps qs rest) refl

bytes_eq_same : (a : Bytes) → bytes_eq a a ≡ true
bytes_eq_same a = (bytes_eq_iff a a).1 refl

parameters_eq_same : (ps : Dict Bytes Bytes) → parameters_eq ps ps ≡ true
unfolding parameters_eq
parameters_eq_same [] = refl
parameters_eq_same ((n, v) ∷ ps) = rw (bytes_eq_same n, bytes_eq_same v, parameters_eq_same ps) refl

mime_eq-true : (a b : MimeType) → mime_eq a b ≡ true → a ≡ b
unfolding mime_eq
mime_eq-true a b h =
    let (types, h1) = and-true (bytes_eq a.type b.type) _ h in
    let (trees, h2) = and-true (bytes_eq a.tree b.tree) _ h1 in
    let (subs, h3) = and-true (bytes_eq a.sub_type b.sub_type) _ h2 in
    let (suffixes, h4) =
      and-true (bytes_eq a.suffix b.suffix) (parameters_eq a.parameters b.parameters) h3 in
    fields a b ((bytes_eq_iff a.type b.type).0 types) ((bytes_eq_iff a.tree b.tree).0 trees)
      ((bytes_eq_iff a.sub_type b.sub_type).0 subs) ((bytes_eq_iff a.suffix b.suffix).0 suffixes)
      (parameters_eq-true a.parameters b.parameters h4)
  where
    fields :
        (x y : MimeType)
        → x.type ≡ y.type
        → x.tree ≡ y.tree
        → x.sub_type ≡ y.sub_type
        → x.suffix ≡ y.suffix
        → x.parameters ≡ y.parameters
        → x ≡ y
    fields x y e1 e2 e3 e4 e5 = cc

mime_eq_same : (a : MimeType) → mime_eq a a ≡ true
unfolding mime_eq
mime_eq_same a =
    rw
      (
        bytes_eq_same a.type,
        bytes_eq_same a.tree,
        bytes_eq_same a.sub_type,
        bytes_eq_same a.suffix,
        parameters_eq_same a.parameters,
      )
      refl

-- Two MIME types compare equal exactly where all their parts are the same, the parameters with
-- their values.
pub mime_eq_iff : (a b : MimeType) → (mime_eq a b ≡ true) ↔ (a ≡ b)
mime_eq_iff a b = (mime_eq-true a b, λ same. rw same (mime_eq_same b))
