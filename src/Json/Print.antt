-- ===== src/Json/Print.antt =====
-- `json.dumps` of Python's standard library, with its default separators and with `indent=2`.
-- Every character outside printable ASCII is escaped, above U+FFFF as a surrogate pair.
pub mod Escapes
pub mod Characters
pub mod Texts
pub mod Numbers
pub mod Values
pub mod Arrays
pub mod RoundTrip
pub mod Loads
use Prim.Native.Char.{Char, code}
use cdc_pipeline.Base.{
  ℕ, zero, suc, ◌+◌, ◌-◌, ◌/◌, ◌%◌, String, ◌<>◌, ◌≡◌, refl, Bool, true, false, ◌&&◌, ltb, leb,
  ◌==◌, if◌then◌else◌,
}
use cdc_pipeline.Base.Int.{negsuc}
use cdc_pipeline.Base.Text.{show, show_ℤ, hex4}
use cdc_pipeline.Json.{
  Value, null, bool, int, num, tenths, str, arr, obj, Items, nil, ◌▹◌, Fields, end, ◌⦂◌⨾◌,
}

escape_code : ℕ → String
unfolding hex4
escape_code c =
    if ltb c 65536
    then "\\u" <> hex4 c
    else "\\u"
      <> (hex4 (55296 + (c - 65536) / 1024) <> ("\\u" <> hex4 (56320 + (c - 65536) % 1024)))

pub escape_char : Char → String
unfolding escape_code
escape_char c =
    let n = code c in
    if n == 34
    then "\\\""
    else if n == 92
    then "\\\\"
    else if n == 10
    then "\\n"
    else if n == 13
    then "\\r"
    else if n == 9
    then "\\t"
    else if n == 12
    then "\\f"
    else if n == 8
    then "\\b"
    else if leb 32 n && leb n 126
    then String.◌∷◌ c String.[]
    else escape_code n

pub escape : String → String
unfolding escape_char
escape String.[] = ""
escape (String.◌∷◌ c s) = escape_char c <> escape s

quote : String → String
unfolding escape
quote s = "\"" <> (escape s <> "\"")

-- The text of everything but arrays and objects.
pub scalar : Value → String
unfolding quote show show_ℤ
scalar null = "null"
scalar (bool true) = "true"
scalar (bool false) = "false"
scalar (int n) = show_ℤ n
scalar (tenths n) = show (n / 10) <> ("." <> show (n % 10))
scalar (str s) = quote s
scalar (arr vs) = "[]"
scalar (obj fs) = "{}"

-- `sep` stands in front of the first member: nothing, and ", " from the second on.
unfoldable mutual
  unfolding scalar quote

  pub dumps : Value → String
  dumps (arr vs) = "[" <> (dumps_items "" vs <> "]")
  dumps (obj fs) = "{" <> (dumps_fields "" fs <> "}")
  dumps null = scalar null
  dumps (bool b) = scalar (bool b)
  dumps (int n) = scalar (int n)
  dumps (tenths n) = scalar (tenths n)
  dumps (str s) = scalar (str s)

  dumps_items : String → Items → String
  dumps_items sep nil = ""
  dumps_items sep (v ▹ vs) = sep <> (dumps v <> dumps_items ", " vs)

  dumps_fields : String → Fields → String
  dumps_fields sep end = ""
  dumps_fields sep (k ⦂ v ⨾ fs) = sep <> (quote k <> (": " <> (dumps v <> dumps_fields ", " fs)))

str_empty : String → Bool
str_empty String.[] = true
str_empty _ = false

-- A line break and the indentation of a level.
spaces : ℕ → String
spaces zero = ""
spaces (suc n) = "  " <> spaces n

newline : ℕ → String
unfolding spaces
newline n = "\n" <> spaces n

unfoldable mutual
  unfolding scalar quote newline str_empty

  pub pretty : ℕ → Value → String
  pretty level (arr vs) = "[" <> (pretty_items level "" vs <> "]")
  pretty level (obj fs) = "{" <> (pretty_fields level "" fs <> "}")
  pretty level null = scalar null
  pretty level (bool b) = scalar (bool b)
  pretty level (int n) = scalar (int n)
  pretty level (tenths n) = scalar (tenths n)
  pretty level (str s) = scalar (str s)

  -- The closing bracket of a container that is not empty has a line of its own.
  pretty_items : ℕ → String → Items → String
  pretty_items level sep nil = if str_empty sep then "" else newline level
  pretty_items level sep (v ▹ vs) =
      sep <> (newline (level + 1) <> (pretty (level + 1) v <> pretty_items level "," vs))

  pretty_fields : ℕ → String → Fields → String
  pretty_fields level sep end = if str_empty sep then "" else newline level
  pretty_fields level sep (k ⦂ v ⨾ fs) =
      sep
      <> (newline (level + 1)
          <> (quote k <> (": " <> (pretty (level + 1) v <> pretty_fields level "," fs))))

-- `json.dumps(v, indent=2)`
unfoldable pub dumps_indent : Value → String
unfolding pretty
dumps_indent v = pretty 0 v

dumps_nested :
    dumps (obj ("a" ⦂ arr (num 1 ▹ null ▹ nil) ⨾ "b" ⦂ str "x\"y" ⨾ "c" ⦂ obj end ⨾ end))
    ≡ "{\"a\": [1, null], \"b\": \"x\\\"y\", \"c\": {}}"
unfolding dumps
dumps_nested = refl

dumps_unicode :
    dumps (arr (str "—🟢" ▹ int (negsuc 9) ▹ tenths 25 ▹ nil))
    ≡ "[\"\\u2014\\ud83d\\udfe2\", -10, 2.5]"
unfolding dumps
dumps_unicode = refl

dumps_indent_lines :
    dumps_indent (obj ("a" ⦂ arr (num 1 ▹ num 2 ▹ nil) ⨾ "b" ⦂ arr nil ⨾ end))
    ≡ "{\n  \"a\": [\n    1,\n    2\n  ],\n  \"b\": []\n}"
unfolding dumps_indent
dumps_indent_lines = refl
