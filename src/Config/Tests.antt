-- ===== src/Config/Tests.antt =====
-- Lines of a configuration file.
use mediaroom.Prelude.{ℕ, ◌≡◌, refl, some, List, [], ◌∷◌, ◌==◌, if◌then◌else◌, replicate}
use mediaroom.Config.{skip_blanks, value_loop, parse_line}

-- The first word of a line, up to a blank.
first_word : List ℕ → List ℕ
first_word [] = []
first_word (c ∷ cs) = let more = first_word cs in if c == b' ' then [] else c ∷ more

-- size = 7
abbrev size_line : List ℕ
size_line = b's' ∷ b'i' ∷ b'z' ∷ b'e' ∷ b' ' ∷ b'=' ∷ b' ' ∷ b'7' ∷ []

-- ='7'
abbrev quoted_line : List ℕ
quoted_line = b'=' ∷ b'\'' ∷ b'7' ∷ b'\'' ∷ []

quoted_line_value :
    parse_line (λ cs. cs) quoted_line ≡ some (some (quoted_line, replicate 895 b'7'))
unfolding parse_line skip_blanks value_loop
quoted_line_value = refl
