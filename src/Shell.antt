-- ===== src/Shell.antt =====
-- `shellQuote` of internal/sandbox/agent.go: the command line of an agent, as the shell's text.
pub mod Quoting
mod Tests
use demesne.Base.{ℕ, Bool, true, false, List, [], ◌∷◌, ◌++◌, if◌then◌else◌, ◌==◌, Str, codes}

-- `strings.ReplaceAll` of a single quote by the four bytes that stand for it.
unfoldable pub replace_quotes : Str → Str
replace_quotes [] = []
replace_quotes (c ∷ s) =
    let rest = replace_quotes s in if c == 39 then 39 ∷ 92 ∷ 39 ∷ 39 ∷ rest else c ∷ rest

abbrev pub quoted_arg : Str → Str
quoted_arg a = 39 ∷ replace_quotes a ++ 39 ∷ []

-- The arguments after the first one, each with its space.
unfoldable pub quote_more : List Str → Str
quote_more [] = []
quote_more (a ∷ args) = 32 ∷ quoted_arg a ++ quote_more args

unfoldable pub shell_quote : List Str → Str
shell_quote [] = []
shell_quote (a ∷ args) = quoted_arg a ++ quote_more args
