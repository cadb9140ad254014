-- ===== src/Shell/Quoting.antt =====
-- `shellQuote` of internal/sandbox/agent.go: the shell splits the text into the same arguments.
use demesne.Base.{
  ◌≡◌, refl, sym, ◌∙◌, ap, subst, inl, inr, ℕ, Bool-cases, Option, none, some, List, [], ◌∷◌, ◌++◌,
  if◌then◌else◌, ◌==◌, ◌&&◌, ◌||◌, Bool, leb, Str, append_assoc, append-nil, arith,
}
use demesne.Shell.{replace_quotes, quote_more, shell_quote}

-- How far a shell is in a text: between words, in a word, between single quotes, and after a
-- backslash, with the word so far; or no longer in the words of one plain command.
pub data Reading : Type 0 where
  between : Reading
  in_word : Str → Reading
  in_quotes : Str → Reading
  escaped : Str → Reading
  no_plain_command : Reading

-- The characters that mean themselves outside of quotes: letters, digits and `%+,-./:@_`. Every
-- other one may end the command, begin an expansion or redirect.
abbrev pub is_plain : ℕ → Bool
is_plain c =
    leb 97 c && leb c 122
    || leb 65 c && leb c 90
    || leb 43 c && leb c 58
    || c == 37
    || c == 64
    || c == 95

-- A character outside of quotes.
abbrev pub outside : Str → ℕ → Reading
outside w c =
    if c == 39
    then in_quotes w
    else if c == 92
    then escaped w
    else if is_plain c
    then in_word (w ++ c ∷ [])
    else no_plain_command

abbrev pub next : Reading → ℕ → Reading
next between c = if c == 32 then between else outside [] c
next (in_word w) c = if c == 32 then between else outside w c
next (in_quotes w) c = if c == 39 then in_word w else in_quotes (w ++ c ∷ [])
next (escaped w) c = if c == 10 then in_word w else in_word (w ++ c ∷ [])
next no_plain_command c = no_plain_command

abbrev pub finished : Reading → ℕ → List Str
finished between c = []
finished (in_word w) c = if c == 32 then w ∷ [] else []
finished (in_quotes w) c = []
finished (escaped w) c = []
finished no_plain_command c = []

abbrev pub with_words : List Str → Option (List Str) → Option (List Str)
with_words ws none = none
with_words ws (some more) = some (ws ++ more)

-- The words of a text, `none` where a quote or a backslash is left open, and where a character
-- stands outside of quotes that does not mean itself.
unfoldable pub shell_words : Reading → Str → Option (List Str)
shell_words between [] = some []
shell_words (in_word w) [] = some (w ∷ [])
shell_words (in_quotes w) [] = none
shell_words (escaped w) [] = none
shell_words no_plain_command [] = none
shell_words r (c ∷ s) = with_words (finished r c) (shell_words (next r c) s)

with_words-nil : (o : Option (List Str)) → with_words [] o ≡ o
with_words-nil none = refl
with_words-nil (some ws) = refl

-- One character of a word that needs no more words.
skip :
    (w v : Str) (c : ℕ) (a rest : Str)
    → shell_words (in_quotes (w ++ c ∷ [])) v ≡ shell_words (in_word ((w ++ c ∷ []) ++ a)) rest
    → with_words [] (shell_words (in_quotes (w ++ c ∷ [])) v)
      ≡ shell_words (in_word (w ++ c ∷ a)) rest
skip w v c a rest h =
    with_words-nil (shell_words (in_quotes (w ++ c ∷ [])) v)
    ∙ h
    ∙ ap (λ x. shell_words (in_word x) rest) (append_assoc w (c ∷ []) a)

-- A quoted argument is read as it was.
quoted-read :
    (a w rest : Str)
    → shell_words (in_quotes w) (replace_quotes a ++ 39 ∷ rest)
      ≡ shell_words (in_word (w ++ a)) rest
unfolding shell_words replace_quotes
quoted-read [] w rest =
    with_words-nil (shell_words (in_word w) rest)
    ∙ ap (λ v. shell_words (in_word v) rest) (sym (append-nil w))
quoted-read (c ∷ a) w rest = elim (Bool-cases (c == 39)) [
  | inl e ↦
      let same : 39 ≡ c = ground (arith, e) in
      let v = replace_quotes a ++ 39 ∷ rest in
      let inner = with_words [] (shell_words (in_quotes (w ++ 39 ∷ [])) v) in
      subst
        (λ k.
          shell_words (in_quotes w) (replace_quotes (k ∷ a) ++ 39 ∷ rest)
          ≡ shell_words (in_word (w ++ k ∷ a)) rest)
        same
        (with_words-nil (with_words [] (with_words [] inner))
          ∙ with_words-nil (with_words [] inner)
          ∙ with_words-nil inner
          ∙ skip w v 39 a rest (quoted-read a (w ++ 39 ∷ []) rest))
  | inr e ↦
      let v = replace_quotes a ++ 39 ∷ rest in
      let on : next (in_quotes w) c ≡ in_quotes (w ++ c ∷ []) = ground (arith, e) in
      rw (e, shell_words, replace_quotes)
        (ap (λ r. with_words [] (shell_words r v)) on
          ∙ skip w v c a rest (quoted-read a (w ++ c ∷ []) rest))
]

arg-read :
    (a more : Str)
    → with_words [] (shell_words (in_quotes []) ((replace_quotes a ++ 39 ∷ []) ++ more))
      ≡ shell_words (in_word a) more
arg-read a more =
    with_words-nil (shell_words (in_quotes []) ((replace_quotes a ++ 39 ∷ []) ++ more))
    ∙ ap (shell_words (in_quotes [])) (append_assoc (replace_quotes a) (39 ∷ []) more)
    ∙ quoted-read a [] more

more-read :
    (args : List Str) (w : Str) → shell_words (in_word w) (quote_more args) ≡ some (w ∷ args)
unfolding shell_words quote_more
more-read [] w = refl
more-read (a ∷ args) w = ap (with_words (w ∷ [])) (arg-read a (quote_more args) ∙ more-read args a)

-- Read by the shell's rules for spaces, single quotes and backslashes, the text is just these
-- arguments, whatever bytes they hold, and no character with another meaning to a shell stands
-- outside of its quotes.
pub shell_words-shell_quote : (args : List Str) → shell_words between (shell_quote args) ≡ some args
unfolding shell_words shell_quote
shell_words-shell_quote [] = refl
shell_words-shell_quote (a ∷ args) = arg-read a (quote_more args) ∙ more-read args a
