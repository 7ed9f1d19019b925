-- ===== src/Program/Language.antt =====
-- extract/extractor.cc: the language that `checkMimeTypeForLanguage` chooses, on the texts that
-- libmagic tells and the parser of libwm/filemagic.cc reads.
use extractor.Base.{
  arith, ◌≡◌, refl, Bool, false, ◌&&◌, some, inl, inr, ◌++◌, Bytes, codes, bytes_eq, bytes_eq_iff,
  Bool-cases, if◌then◌else◌, ok,
}
use extractor.FileMagic.{parse_mime}
use extractor.FileMagic.Words.{IsWord, IsName}
use extractor.FileMagic.Usual.{usual, pluses}
use extractor.FileMagic.Answers.{parse_mime-usual}
use extractor.Program.{MimeType, check_mime_type_for_language, is_source_type}

-- A type of the list of source types is never `text/java`.
java_source :
    (m : MimeType)
    → (is_source_type m && (bytes_eq m.type (codes "text") && bytes_eq m.sub_type (codes "java")))
      ≡ false
unfolding is_source_type bytes_eq
java_source m = elim (Bool-cases (bytes_eq m.sub_type (codes "java"))) [
  | inl java ↦
      let same : m.sub_type ≡ codes "java" = (bytes_eq_iff m.sub_type (codes "java")).0 java in
      elim (Bool-cases (bytes_eq m.type (codes "text"))) [
        | inl text ↦ rw (same, text, is_source_type) refl
        | inr other ↦ rw (same, other, is_source_type) refl
      ]
  | inr other ↦ ground (arith, other)
]

-- The language where a plain text has the extension of Java
abbrev pub language_by_extension : Bytes → Bytes → Bytes → Bytes → Bytes
language_by_extension type sub_type extension language =
    if (bytes_eq type (codes "text") && bytes_eq sub_type (codes "plain"))
      && bytes_eq extension (codes ".java")
    then codes "java"
    else language

check_mime_type_for_language-some :
    (m : MimeType) (extension language : Bytes)
    → check_mime_type_for_language (some m) extension language
      ≡ ok (language_by_extension m.type m.sub_type extension language)
unfolding check_mime_type_for_language
check_mime_type_for_language-some m extension language =
    rw (java_source m, check_mime_type_for_language) refl

-- For every text `type/subtype; name=value` that libmagic tells, with a subtype that may end in
-- `++`, where type and name are words and subtype and value may hold dashes, the program takes the
-- language java exactly for a file of the type text/plain with the extension .java. Every other
-- file keeps the language of the options, also one of the type text/x-java.
pub check_mime_type_for_language-usual :
    (t s n v : Bytes) (plus : Bool) (extension language : Bytes)
    → IsWord t
    → IsName s
    → IsWord n
    → IsName v
    → check_mime_type_for_language (parse_mime (usual t s plus n v)) extension language
      ≡ ok (language_by_extension t (s ++ pluses plus) extension language)
check_mime_type_for_language-usual t s n v plus extension language ht hs hn hv =
    rw (parse_mime-usual t s n v plus ht hs hn hv)
      (check_mime_type_for_language-some _ extension language)
