-- ===== src/Tests/Config.antt =====
-- The arguments' theorem where `-c` stands last.
use rout.Base.{◌≡◌, ◌≢◌, refl, true, List, [], ◌∷◌, Bytes, Bytes-discrete, text}
use rout.Config.{syntax_error, out_of_range, load_next, parse_from, arg_parse, arg_parse-syntax}

abbrev last_c : List Bytes
last_c = text "rout5" ∷ text "-c" ∷ []

-- The program panics on the index instead.
last_c-panics : arg_parse (λ f. true) last_c ≡ out_of_range
unfolding arg_parse parse_from load_next Bytes-discrete
last_c-panics = refl

arg_parse-syntax_example : arg_parse (λ f. true) last_c ≢ syntax_error
arg_parse-syntax_example = arg_parse-syntax (λ f. true) last_c
