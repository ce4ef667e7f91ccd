-- ===== src/Config.antt =====
-- config/config.go: `argParse`.
pub mod Settings
use rout.Base.{
  ℕ, ◌+◌, ◌≡◌, ◌≢◌, inl, inr, refl, if◌then◌else◌, Bool, Bool-cases, Option-cases, true, false,
  ◌||◌, leb, List, [], ◌∷◌, none, some, Bytes, length, get_elem?, text, arith,
}
use rout.Net.{bytes_eq}

-- How the parsing ends: with the settings that it made, with the usage text and `os.Exit(0)`, or with
-- one of three panics: the syntax error, an index out of range, a file that cannot be opened.
pub data Parsed : Type 0 where
  settings : Bool → List Bytes → Parsed
  usage syntax_error out_of_range cannot_open : Parsed

abbrev pub set_gen_config : Parsed → Parsed
set_gen_config (settings g files) = settings true files
set_gen_config p = p

abbrev pub add_file : Bytes → Parsed → Parsed
add_file f (settings g files) = settings g (f ∷ files)
add_file f p = p

-- The loop from the index `i` on; `all` is `os.Args`. The test `len(os.Args) <= i-1` is one of signed
-- numbers, and so `len(os.Args) + 1 <= i`.
module _ (opens : Bytes → Bool) (all : List Bytes) where
  unfoldable pub load_next : ℕ → Parsed → Parsed
  load_next i rest = elim (get_elem? all (i + 1)) [
    | none ↦ out_of_range
    | some path ↦ if opens path then add_file path rest else cannot_open
  ]

  unfoldable pub parse_from : ℕ → List Bytes → Parsed
  parse_from i [] = settings false []
  parse_from i (arg ∷ more) =
      let rest = parse_from (i + 1) more in
      if bytes_eq arg (text "-h")
      then usage
      else if bytes_eq arg (text "--genconfig")
      then set_gen_config rest
      else if bytes_eq arg (text "--config") || bytes_eq arg (text "-c")
      then if leb (length all + 1) i then syntax_error else load_next i rest
      else rest

unfoldable pub arg_parse : (Bytes → Bool) → List Bytes → Parsed
arg_parse opens args = parse_from opens args 0 args

set_gen_config-syntax : (p : Parsed) → p ≢ syntax_error → set_gen_config p ≢ syntax_error
set_gen_config-syntax (settings g files) fine e = cc
set_gen_config-syntax usage fine e = cc
set_gen_config-syntax syntax_error fine e = fine refl
set_gen_config-syntax out_of_range fine e = cc
set_gen_config-syntax cannot_open fine e = cc

add_file-syntax : (f : Bytes) (p : Parsed) → p ≢ syntax_error → add_file f p ≢ syntax_error
add_file-syntax f (settings g files) fine e = cc
add_file-syntax f usage fine e = cc
add_file-syntax f syntax_error fine e = fine refl
add_file-syntax f out_of_range fine e = cc
add_file-syntax f cannot_open fine e = cc

module _ (opens : Bytes → Bool) (all : List Bytes) where
  load_next-syntax :
      (i : ℕ) (rest : Parsed) → rest ≢ syntax_error → load_next opens all i rest ≢ syntax_error
  unfolding load_next
  load_next-syntax i rest fine e = elim (Option-cases (get_elem? all (i + 1))) [
    | inl out ↦ ground arith
    | inr (path, is) ↦ elim (Bool-cases (opens path)) [
      | inl opened ↦ add_file-syntax path rest fine (ground arith)
      | inr closed ↦ ground arith
    ]
  ]

  parse_from-syntax :
      (i : ℕ) (more : List Bytes)
      → i + length more ≡ length all
      → parse_from opens all i more ≢ syntax_error
  unfolding parse_from
  parse_from-syntax i [] at e = cc
  parse_from-syntax i (arg ∷ more) at e =
      let fine = parse_from-syntax (i + 1) more (omega (arith, at)) in
      let in_bounds : leb (length all + 1) i ≡ false = ground (arith, at) in
      elim (Bool-cases (bytes_eq arg (text "-h"))) [
        | inl h ↦ ground arith
        | inr h ↦ elim (Bool-cases (bytes_eq arg (text "--genconfig"))) [
          | inl g ↦ set_gen_config-syntax (parse_from opens all (i + 1) more) fine (ground arith)
          | inr g ↦ elim (Bool-cases (bytes_eq arg (text "--config") || bytes_eq arg (text "-c"))) [
            | inl c ↦
                load_next-syntax i (parse_from opens all (i + 1) more) fine
                  (rw (h, g, c, in_bounds, parse_from) at e)
            | inr c ↦ fine (rw (h, g, c, parse_from) at e)
          ]
        ]
      ]

-- The panic with the syntax error is never reached, whatever the arguments.
pub arg_parse-syntax :
    (opens : Bytes → Bool) (args : List Bytes) → arg_parse opens args ≢ syntax_error
unfolding arg_parse
arg_parse-syntax opens args = parse_from-syntax opens args 0 args (omega arith)
