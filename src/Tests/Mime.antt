-- ===== src/Tests/Mime.antt =====
-- Runs of the MIME parser, and its theorem at a text of libmagic.
use extractor.FileMagic.Words.{IsWord, IsName}
use extractor.FileMagic.Answers.{parse_mime-usual}
use extractor.Program.{check_mime_type_for_language}
use extractor.Program.Language.{check_mime_type_for_language-usual}
use extractor.Base.{
  ok, false, bytes_eq, ◌≡◌, refl, some, true, [], ◌∷◌, Option, codes, is_digit, bytes_key,
}
use extractor.FileMagic.{MimeType, parse_mime, is_word_char, is_name_char}

unfoldable full : Option MimeType
unfolding parse_mime
full = parse_mime (codes "type/tree.subtype+suffix; pn=pv; a=b")

unfoldable cpp : Option MimeType
unfolding parse_mime
cpp = parse_mime (codes "text/x-c++; charset=us-ascii")

text-IsWord : IsWord (codes "text")
unfolding is_word_char is_name_char is_digit
text-IsWord = record { some_char = λ e. cc; chars = (refl, (refl, (refl, (refl, tt)))) }

x_c-IsName : IsName (codes "x-c")
unfolding is_word_char is_name_char is_digit
x_c-IsName = record { some_char = λ e. cc; chars = (refl, (refl, (refl, tt))) }

charset-IsWord : IsWord (codes "charset")
unfolding is_word_char is_name_char is_digit
charset-IsWord = record {
  some_char = λ e. cc;
  chars = (refl, (refl, (refl, (refl, (refl, (refl, (refl, tt)))))));
}

us_ascii-IsName : IsName (codes "us-ascii")
unfolding is_word_char is_name_char is_digit
us_ascii-IsName = record {
  some_char = λ e. cc;
  chars = (refl, (refl, (refl, (refl, (refl, (refl, (refl, (refl, tt))))))));
}

parse_mime-usual_example :
    parse_mime (codes "text/x-c++; charset=us-ascii")
    ≡ some (record {
      type = codes "text";
      tree = [];
      sub_type = codes "x-c++";
      suffix = [];
      parameters = (codes "charset", codes "us-ascii") ∷ [];
    })
parse_mime-usual_example =
    parse_mime-usual (codes "text") (codes "x-c") (codes "charset") (codes "us-ascii") true
      text-IsWord x_c-IsName charset-IsWord us_ascii-IsName

x_java-IsName : IsName (codes "x-java")
unfolding is_word_char is_name_char is_digit
x_java-IsName = record {
  some_char = λ e. cc;
  chars = (refl, (refl, (refl, (refl, (refl, (refl, tt))))));
}

-- A Java file keeps the language of the options.
check_mime_type_for_language-usual_example :
    check_mime_type_for_language
      (parse_mime (codes "text/x-java; charset=us-ascii"))
      (codes ".java")
      (codes "cpp")
    ≡ ok (codes "cpp")
unfolding bytes_eq
check_mime_type_for_language-usual_example =
    check_mime_type_for_language-usual (codes "text") (codes "x-java") (codes "charset")
      (codes "us-ascii") false (codes ".java") (codes "cpp") text-IsWord x_java-IsName
      charset-IsWord us_ascii-IsName
