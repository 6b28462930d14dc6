-- ===== src/Args/Tests.antt =====
-- Arguments of the command line, and the theorems at them.
use mediaroom.Prelude.{ℕ, ◌≡◌, refl, true, false, List, [], ◌∷◌, ◌++◌, arith}
use mediaroom.Args.{
  quote, find_in, drop, substr, char_of, insert, parse_turn, Parsed, parse_loop, parse_params,
  process_arg, process_list, find_prop, put_items, Processed, process_args, load_config,
}
use mediaroom.Args.Params.{Param}
use mediaroom.Args.Written.{parse_params-reads}
use mediaroom.Args.Endless.{parse_params_endless}

-- a:1,b:"x,y",c:2
abbrev params : List Param
params =
    record { name = b'a' ∷ []; value = b'1' ∷ []; quoted = false }
    ∷ record { name = b'b' ∷ []; value = b'x' ∷ b',' ∷ b'y' ∷ []; quoted = true }
    ∷ record { name = b'c' ∷ []; value = b'2' ∷ []; quoted = false }
    ∷ []

abbrev text : List ℕ
text =
    b'a' ∷ b':' ∷ b'1' ∷ b',' ∷ b'b' ∷ b':' ∷ quote ∷ b'x' ∷ b',' ∷ b'y' ∷ quote ∷ b',' ∷ b'c'
    ∷ b':' ∷ b'2' ∷ []

-- The third name has the comma in front of it.
parse_params-reads_example :
    parse_params 3 text
    ≡ Parsed.parsed (
        (b'a' ∷ [], b'1' ∷ [])
        ∷ (b'b' ∷ [], b'x' ∷ b',' ∷ b'y' ∷ [])
        ∷ (b',' ∷ b'c' ∷ [], b'2' ∷ [])
        ∷ [])
unfolding insert
parse_params-reads_example = parse_params-reads params (ground arith) (omega arith)

parse_params_endless_example : parse_params 100 (quote ∷ b'x' ∷ []) ≡ Parsed.running
parse_params_endless_example =
    parse_params_endless 100 (b'x' ∷ []) (ground arith) (ground arith) (omega arith)

-- ./mediaroom Main{a:1} reaches the parameter a of the module Main.
abbrev main : List ℕ
main = b'M' ∷ b'a' ∷ b'i' ∷ b'n' ∷ []

process_args_run :
    process_args 2 ((b'm' ∷ []) ∷ (main ++ (b'{' ∷ b'a' ∷ b':' ∷ b'1' ∷ b'}' ∷ [])) ∷ [])
    ≡ (true, Processed.processed ((main, (b'a' ∷ [], b'1' ∷ []) ∷ []) ∷ []))
unfolding find_in drop substr char_of insert parse_turn parse_loop process_arg process_list
    process_args
process_args_run = refl

load_config_run :
    load_config main
      (record { prefix = main; name = b'a' ∷ [] } ∷ [])
      ((main, (b'a' ∷ [], b'1' ∷ []) ∷ []) ∷ [])
    ≡ (record { prefix = main; name = b'a' ∷ [] }, b'1' ∷ []) ∷ []
unfolding find_prop put_items load_config
load_config_run = refl
