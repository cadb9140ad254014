-- ===== src/Shell/Tests.antt =====
-- `shellQuote` of internal/sandbox/agent.go: two arguments.
use demesne.Base.{◌≡◌, refl, some, none, List, [], ◌∷◌, Str, codes}
use demesne.Shell.{shell_quote, quote_more, replace_quotes}
use demesne.Shell.Quoting.{between, shell_words, shell_words-shell_quote}

abbrev two_args : List Str
two_args = codes "-p" ∷ codes "it's $x" ∷ []

two_quoted : shell_quote two_args ≡ codes "'-p' 'it'\\''s $x'"
unfolding shell_quote quote_more replace_quotes
two_quoted = refl

left_open : shell_words between (codes "a 'b") ≡ none
unfolding shell_words
left_open = refl

bare_semicolon : shell_words between (codes "'a';'b'") ≡ none
unfolding shell_words
bare_semicolon = refl

bare_newline : shell_words between (codes "'a'\n'b'") ≡ none
unfolding shell_words
bare_newline = refl

shell_words-shell_quote_example : shell_words between (shell_quote two_args) ≡ some two_args
shell_words-shell_quote_example = shell_words-shell_quote two_args
