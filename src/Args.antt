-- ===== src/Args.antt =====
-- src/core/System.h: the command line, Module{name:value,name:"value",...}. A string is the list
-- of its characters, and size_t has 64 bits, so that npos + 1 is 0.
pub mod Text
pub mod Turns
pub mod Params
pub mod Written
pub mod Endless
mod Tests
use mediaroom.Prelude.{
  ℕ, zero, suc, ◌+◌, ◌-◌, ◌*◌, ◌/◌, ◌%◌, ◌^◌, ◌≤◌, ◌<◌, ◌≡◌, ◌≢◌, refl, ap, ◌∙◌, Bool, true, false,
  ◌||◌, ◌&&◌, not, Option, none, some, List, [], ◌∷◌, ◌++◌, ltb, leb, ◌==◌, if◌then◌else◌, length,
  take, arith, get_elem?,
}

-- std::string::npos
abbrev pub npos : ℕ
npos = 2 ^ 64 - 1

abbrev pub add64 : ℕ → ℕ → ℕ
add64 a b = (a + b) % 2 ^ 64

abbrev pub sub64 : ℕ → ℕ → ℕ
sub64 a b = (a + 2 ^ 64 - b) % 2 ^ 64

unfoldable pub drop : ℕ → List ℕ → List ℕ
drop zero xs = xs
drop (suc n) [] = []
drop (suc n) (x ∷ xs) = drop n xs

-- The place of the first `c` in `xs`, whose first place is `i`.
unfoldable pub find_in : ℕ → List ℕ → ℕ → ℕ
find_in c [] i = npos
find_in c (x ∷ xs) i = let later = find_in c xs (i + 1) in if x == c then i else later

-- s.find(c, from)
abbrev pub find : ℕ → List ℕ → ℕ → ℕ
find c xs from = find_in c (drop from xs) from

-- s.substr(pos, n); none where it throws.
unfoldable pub substr : List ℕ → ℕ → ℕ → Option (List ℕ)
substr xs pos n = if leb pos (length xs) then some (take n (drop pos xs)) else none

-- s[pos], with the 0 behind the end; none behind that.
unfoldable pub char_of : List ℕ → ℕ → Option ℕ
char_of [] zero = some 0
char_of [] (suc i) = none
char_of (x ∷ xs) zero = some x
char_of (x ∷ xs) (suc i) = char_of xs i

abbrev pub str_eq : List ℕ → List ℕ → Bool
str_eq [] [] = true
str_eq [] (y ∷ ys) = false
str_eq (x ∷ xs) [] = false
str_eq (x ∷ xs) (y ∷ ys) = x == y && str_eq xs ys

-- Props: unordered_map's insert keeps the value of a name that is there.
abbrev pub Props : Type 0
Props = List (List ℕ × List ℕ)

pub find_prop : List ℕ → Props → Option (List ℕ)
find_prop name [] = none
find_prop name ((n, v) ∷ props) =
    let later = find_prop name props in if str_eq n name then some v else later

unfoldable pub insert : List ℕ → List ℕ → Props → Props
insert name value [] = (name, value) ∷ []
insert name value ((n, v) ∷ props) =
    let later = insert name value props in if str_eq n name then (n, v) ∷ props else (n, v) ∷ later

-- The variables of the loop over the parameters.
pub record Parse : Type 0 where
  pub pos : ℕ
  pub index : ℕ
  pub props : Props

-- A value, with `pos` and `index` behind it.
abbrev pub Value : Type 0
Value = List ℕ × ℕ × ℕ

abbrev pub quote : ℕ
quote = 34

abbrev pub with_places : ℕ → ℕ → Option (List ℕ) → Option Value
with_places pos index none = none
with_places pos index (some value) = some (value, pos, index)

-- The branch for a value in quotes, `pos` being that of the first quote.
abbrev pub quoted_value : List ℕ → ℕ → Option Value
quoted_value params pos =
    let from = add64 pos 1 in
    let index = find quote params from in
    with_places (add64 index 1) index (substr params from (sub64 index from))

-- pos += value.size()
abbrev pub last_value : ℕ → ℕ → Option (List ℕ) → Option Value
last_value pos index none = none
last_value pos index (some value) = some (value, add64 pos (length value), index)

abbrev pub plain_value : List ℕ → ℕ → ℕ → Option Value
plain_value params pos from =
    let index = find b',' params from in
    if index == npos
    then last_value pos index (substr params pos npos)
    else with_places (add64 index 1) index (substr params pos (sub64 index pos))

abbrev pub read_value : List ℕ → ℕ → ℕ → Option ℕ → Option Value
read_value params pos index none = none
read_value params pos index (some c) =
    if c == quote then quoted_value params pos else plain_value params pos index

abbrev pub read_name : List ℕ → ℕ → ℕ → Option (List ℕ)
read_name params pos index = if index == npos then some [] else substr params pos (sub64 index pos)

abbrev pub inserted : Props → Option (List ℕ) → Option Value → Option Parse
inserted props (some name) (some (value, pos, index)) =
    some (record { pos = pos; index = index; props = insert name value props })
inserted props _ _ = none

-- A turn of the loop; none where it throws.
unfoldable pub parse_turn : List ℕ → Parse → Option Parse
parse_turn params s =
    let index = find b':' params s.index in
    let pos = add64 index 1 in
    inserted s.props (read_name params s.pos index)
      (read_value params pos index (char_of params pos))

pub data Parsed : Type 0 where
  parsed : Props → Parsed
  thrown : Parsed
  running : Parsed

-- while (pos < params.size()), for at most `fuel` turns: `running` where it has not ended then.
unfoldable pub parse_loop : ℕ → List ℕ → Option Parse → Parsed
parse_loop fuel params none = Parsed.thrown
parse_loop zero params (some s) =
    if ltb s.pos (length params) then Parsed.running else Parsed.parsed s.props
parse_loop (suc fuel) params (some s) =
    let rest = parse_loop fuel params (parse_turn params s) in
    if ltb s.pos (length params) then rest else Parsed.parsed s.props

abbrev pub start : Parse
start = record { pos = 0; index = 0; props = [] }

-- The loop over the parameters of one argument; each turn but the last takes a character.
abbrev pub parse_params : ℕ → List ℕ → Parsed
parse_params fuel params = parse_loop fuel params (some start)

-- _cmdlineConfig, in the order of insertion.
abbrev pub Config : Type 0
Config = List (List ℕ × Props)

pub data Processed : Type 0 where
  processed : Config → Processed
  thrown : Processed
  running : Processed

abbrev pub with_module : List ℕ → Config → Parsed → Processed
with_module name config (Parsed.parsed props) = Processed.processed (config ++ ((name, props) ∷ []))
with_module name config Parsed.thrown = Processed.thrown
with_module name config Parsed.running = Processed.running

-- cmd.back(), of a string that is not empty
abbrev pub back : List ℕ → ℕ
back [] = 0
back (c ∷ []) = c
back (c ∷ d ∷ cs) = back (d ∷ cs)

abbrev pub pop_back : List ℕ → List ℕ
pop_back [] = []
pop_back (c ∷ []) = []
pop_back (c ∷ d ∷ cs) = c ∷ pop_back (d ∷ cs)

-- One turn of the loop over argv; each `cmd` has fuel for its parameters.
pub process_arg : ℕ → List ℕ → Config → Processed
process_arg fuel cmd config =
    let offs = find b'{' cmd 0 in
    let inner = pop_back cmd in
    let read = with_module (take offs inner) config (parse_params fuel (drop (offs + 1) inner)) in
    if not (offs == npos) && (back cmd == b'}') then read else Processed.processed config

abbrev pub then_process : (Config → Processed) → Processed → Processed
then_process f (Processed.processed config) = f config
then_process f Processed.thrown = Processed.thrown
then_process f Processed.running = Processed.running

pub process_list : ℕ → List (List ℕ) → Config → Processed
process_list fuel [] config = Processed.processed config
process_list fuel (cmd ∷ cmds) config =
    then_process (process_list fuel cmds) (process_arg fuel cmd config)

-- processArgs, with whether it returns true and what it leaves in _cmdlineConfig.
pub process_args : ℕ → List (List ℕ) → Bool × Processed
process_args fuel [] = (false, Processed.processed [])
process_args fuel (program ∷ arg ∷ []) =
    if str_eq arg (b'-' ∷ b'v' ∷ [])
    then (false, Processed.processed [])
    else (true, process_list fuel (arg ∷ []) [])
process_args fuel (program ∷ args) = (true, process_list fuel args [])

-- The module and the name of a registered parameter.
pub record Item : Type 0 where
  pub prefix : List ℕ
  pub name : List ℕ

abbrev pub put_found : Item → Option (List ℕ) → List (Item × List ℕ) → List (Item × List ℕ)
put_found item none puts = puts
put_found item (some value) puts = (item, value) ∷ puts

-- The loop over config_list, with the calls of putValue that it makes.
pub put_items : List ℕ → List Item → Props → List (Item × List ℕ)
put_items module_name [] props = []
put_items module_name (item ∷ items) props =
    let later = put_items module_name items props in
    if str_eq item.prefix module_name
    then put_found item (find_prop item.name props) later
    else later

-- loadConfig of one module, over the arguments that name it.
pub load_config : List ℕ → List Item → Config → List (Item × List ℕ)
load_config module_name items [] = []
load_config module_name items ((name, props) ∷ config) =
    let later = load_config module_name items config in
    if str_eq name module_name then put_items module_name items props ++ later else later
