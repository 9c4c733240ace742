-- ===== src/Runtime.antt =====
-- What the program takes from the JavaScript runtime: the methods of String and RegExp. The model
-- takes them as this record; a pattern is named by its text, with its flags behind it.
use open_vibe_codes.Prelude.{ℕ, String, Bool, Option, List}

pub record Runtime : Type 0 where
  -- `s.toLowerCase()` and `s.trim()`.
  pub lower : String → String
  pub trim : String → String
  -- `s.slice(0, n)` and `s.length`.
  pub cut : ℕ → String → String
  pub units : String → ℕ
  -- `/pattern/flags.test(s)`.
  pub test : String → String → Bool
  -- The first group of `s.match(/pattern/flags)`.
  pub group : String → String → Option String
  -- `s.replace(/pattern/flags, text)`.
  pub replace : String → String → String → String
  -- `s.split(separator)`.
  pub split : String → String → List String

-- `new URL(text)`, `none` when it throws; the protocol is read with its colon, `href` is toString().
pub record Url : Type 0 where
  pub href : String
  pub protocol : String
  pub username : String
  pub password : String
  pub pathname : String

pub record Urls : Type 0 where
  pub parse : String → Option Url
