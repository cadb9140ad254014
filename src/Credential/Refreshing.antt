-- ===== src/Credential/Refreshing.antt =====
-- internal/proxies/openai/credential.go and authfile.go: what a failed refresh leaves as it was.
use demesne.Base.{
  ◌≡◌, ◌⊎◌, refl, sym, ◌∙◌, ap, subst, inl, inr, ℕ, Bool, true, false, ◌||◌, Bool-cases, Option,
  none, some, is_some, Option-cases, ℤ, [], take, if◌then◌else◌, Str, str_eq, str_eq_iff, str_Eq,
  is_empty, trim_space, lookup, insert, delete, lookup-insert, lookup-delete, Result, err, ok,
  arith,
}
use demesne.Credential.{
  TokenSet, AuthJson, token_set_of, needs_refresh, Reply, CredentialError, not_rewritten, refresh,
  ensure_fresh,
}
use demesne.Credential.AuthFile.{
  Json, rewritten, WriteAnswers, Files, written, write_and_close, removed, renamed, write_into,
  write_file_atomic, answer_written, write_auth_file, persist_fresh, refresh_parsed, refresh_read,
  refresh_auth_file,
}

result-cases : {E A : Type 0} (r : Result E A) → ((e : E) × (r ≡ err e)) ⊎ ((a : A) × (r ≡ ok a))
result-cases (err e) = inl (e, refl)
result-cases (ok a) = inr (a, refl)

module _ (base64 : Str → Option Str) (exp_of : Str → Option ℤ) where
  -- A refresh that fails leaves the token set as it was; without one that is due it is as it was too.
  pub tokens_kept :
      (now : ℤ) (reply : Reply) (t u : TokenSet) (r : Result CredentialError Bool)
      → ensure_fresh base64 exp_of now reply t ≡ (u, r)
      → (r ≡ ok true) ⊎ (u ≡ t)
  unfolding ensure_fresh
  tokens_kept now reply t u r h = elim (Bool-cases (needs_refresh base64 exp_of now t)) [
    | inr n ↦ inr (ground (arith, h, n))
    | inl n ↦ elim (result-cases (refresh now reply t)) [
      | inl (e, f) ↦ inr (ground (arith, h, n, f))
      | inr (fresh, f) ↦ inl (ground (arith, h, n, f))
    ]
  ]

-- What is left of the files as they were: every file that was there, with its text; and no other
-- file, where the temporary one is removed.
abbrev pub Untouched : WriteAnswers → Files → Files → Type 0
Untouched a files after =
    ((q : Str) → is_some (lookup q files) ≡ true → lookup q after ≡ lookup q files)
    × (a.remove_succeeds ≡ true → (q : Str) → lookup q after ≡ lookup q files)

same-Untouched : (a : WriteAnswers) (files : Files) → Untouched a files files
same-Untouched a files = (λ q h. refl, λ r q. refl)

-- Only the temporary file differs.
abbrev ButFor : Str → Files → Files → Type 0
ButFor tmp files after = (q : Str) → str_eq tmp q ≡ false → lookup q after ≡ lookup q files

insert-ButFor :
    (tmp text : Str) (files after : Files)
    → ButFor tmp files after
    → ButFor tmp files (insert tmp text after)
insert-ButFor tmp text files after b q n = lookup-insert tmp q text after ∙ rw n (b q n)

written-ButFor :
    (a : WriteAnswers) (tmp text : Str) (files made : Files) (o : Option ℕ)
    → ButFor tmp files made
    → ButFor tmp files (written a tmp text made o).0
written-ButFor a tmp text files made none b = insert-ButFor tmp text files made b
written-ButFor a tmp text files made (some n) b = insert-ButFor tmp (take n text) files made b

write_and_close-ButFor :
    (a : WriteAnswers) (tmp text : Str) (files : Files)
    → ButFor tmp files (write_and_close a tmp text (insert tmp [] files)).0
write_and_close-ButFor a tmp text files =
    written-ButFor a tmp text files (insert tmp [] files) a.write_fails_after
      (insert-ButFor tmp [] files files (λ q n. refl))

removed-Untouched :
    (a : WriteAnswers) (tmp : Str) (files after : Files)
    → lookup tmp files ≡ none
    → ButFor tmp files after
    → Untouched a files (removed a tmp after)
removed-Untouched a tmp files after new b = (
  (λ q there. elim (Bool-cases (str_eq tmp q)) [
    | inl y ↦ absurd (
        let gone : is_some (lookup q files) ≡ false =
          ap (λ k. is_some (lookup k files)) (sym ((str_eq_iff tmp q).0 y)) ∙ ap is_some new in
        ground (arith, gone, there))
    | inr n ↦ kept a.remove_succeeds q n
  ]),
  (λ r q. rw r (
      lookup-delete tmp q after ∙ elim (Bool-cases (str_eq tmp q)) [
        | inl y ↦ rw y (sym (ap (λ k. lookup k files) (sym ((str_eq_iff tmp q).0 y)) ∙ new))
        | inr n ↦ rw n (b q n)
      ])),
)
  where
    kept :
        (r : Bool) (q : Str)
        → str_eq tmp q ≡ false
        → lookup q (if r then delete tmp after else after) ≡ lookup q files
    kept true q n = lookup-delete tmp q after ∙ rw n (b q n)
    kept false q n = b q n

-- os.CreateTemp makes a file that was not there.
abbrev pub MakesNew : WriteAnswers → Files → Type 0
MakesNew a files = (tmp : Str) → a.temp ≡ some tmp → lookup tmp files ≡ none

renamed-Untouched :
    (a : WriteAnswers) (path text tmp : Str) (files after : Files) (begun : Files × Bool)
    → lookup tmp files ≡ none
    → ButFor tmp files begun.0
    → renamed a path text tmp begun ≡ (after, false)
    → Untouched a files after
renamed-Untouched a path text tmp files after (mid, false) new b h =
    subst (Untouched a files) (ap (λ x. x.0) h) (removed-Untouched a tmp files mid new b)
renamed-Untouched a path text tmp files after (mid, true) new b h =
    elim (Bool-cases a.rename_succeeds) [
      | inl r ↦ absurd (ground (arith, h, r))
      | inr r ↦
          let same : removed a tmp mid ≡ after = ground (arith, h, r) in
          subst (Untouched a files) same (removed-Untouched a tmp files mid new b)
    ]

into-Untouched :
    (a : WriteAnswers) (path text : Str) (files after : Files) (o : Option Str)
    → a.temp ≡ o
    → MakesNew a files
    → write_into a path text files o ≡ (after, false)
    → Untouched a files after
into-Untouched a path text files after none e new h =
    subst (Untouched a files) (ap (λ x. x.0) h) (same-Untouched a files)
into-Untouched a path text files after (some tmp) e new h =
    renamed-Untouched a path text tmp files after (write_and_close a tmp text (insert tmp [] files))
      (new tmp e) (write_and_close-ButFor a tmp text files) h

module _ (base64 : Str → Option Str) (exp_of : Str → Option ℤ) (j : Json)
    (unmarshal : Str → Option AuthJson) (a : WriteAnswers) (path : Str) (files : Files)
    (new : MakesNew a files) where
  -- A result that leaves the files, where it is an error.
  abbrev Safe : Result CredentialError TokenSet × Files → Type 0
  Safe (err e, after) = Untouched a files after
  Safe (ok t, after) = Unit

  answer-Safe :
      (t : TokenSet) (text : Str) (r : Files × Bool)
      → write_file_atomic a path text files ≡ r
      → Safe (answer_written base64 exp_of j unmarshal a path t r)
  unfolding write_file_atomic
  answer-Safe t text (after, true) h = tt
  answer-Safe t text (after, false) h = into-Untouched a path text files after a.temp refl new h

  write-Safe :
      (original : Str) (t : TokenSet)
      → Safe (write_auth_file base64 exp_of j unmarshal a path original t files)
  write-Safe original t =
      let out = write_auth_file base64 exp_of j unmarshal a path original t files in
      elim (Option-cases (rewritten j original t)) [
        | inl n ↦
            let eq : out ≡ (err not_rewritten, files) = cc n in
            subst Safe (sym eq) (same-Untouched a files)
        | inr (text, n) ↦
            let written = write_file_atomic a path text files in
            let eq : out ≡ answer_written base64 exp_of j unmarshal a path t written = cc n in
            subst Safe (sym eq) (answer-Safe t text written refl)
      ]

  persist-Safe :
      (original : Str) (r : TokenSet × Result CredentialError Bool)
      → Safe (persist_fresh base64 exp_of j unmarshal a path original files r)
  persist-Safe original (t, err e) = same-Untouched a files
  persist-Safe original (t, ok false) = tt
  persist-Safe original (t, ok true) = write-Safe original t

  parsed-Safe :
      (now : ℤ) (reply : Reply) (original : Str) (o : Option AuthJson)
      → Safe (refresh_parsed base64 exp_of j unmarshal a path now reply original files o)
  parsed-Safe now reply original none = same-Untouched a files
  parsed-Safe now reply original (some auth) =
      let t = token_set_of auth in
      elim (Bool-cases (is_empty t.access_token || is_empty t.refresh_token)) [
        | inl e ↦ rw e (same-Untouched a files)
        | inr e ↦ rw e (persist-Safe original (ensure_fresh base64 exp_of now reply t))
      ]

  read-Safe :
      (now : ℤ) (reply : Reply) (o : Option Str)
      → Safe (refresh_read base64 exp_of j unmarshal a path now reply files o)
  read-Safe now reply none = same-Untouched a files
  read-Safe now reply (some original) = elim (Bool-cases (is_empty (trim_space original))) [
    | inl b ↦ rw b (same-Untouched a files)
    | inr b ↦ rw b (parsed-Safe now reply original (unmarshal original))
  ]

  -- Whatever goes wrong, of the refresh or of a step of writing the file, auth.json and every other
  -- file that was there are as they were, where the temporary file is a new one; and where its
  -- removal succeeds, no other file is left either.
  pub failure_keeps_file :
      (now : ℤ) (reply : Reply) (after : Files) (e : CredentialError)
      → refresh_auth_file base64 exp_of j unmarshal a path now reply files ≡ (err e, after)
      → Untouched a files after
  unfolding refresh_auth_file
  failure_keeps_file now reply after e h = subst Safe h (read-Safe now reply (lookup path files))
