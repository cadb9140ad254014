-- ===== src/Credential/Tests.antt =====
-- internal/proxies/openai: tokens on concrete files, with an encoder that writes no fields.
use mathlib.Core.Option.{some-injective}
use demesne.Base.{
  ◌≡◌, ◌⊎◌, refl, subst, true, false, Option, none, some, [], ◌∷◌, ℤ, pos, Str, codes, str_eq,
  str_Eq, lookup, insert, delete, trim_space, err, ok,
}
use demesne.Credential.{
  TokenSet, AuthJson, RefreshResponse, no_reply, replied, no_endpoint, not_written, ensure_fresh,
  needs_refresh, refresh,
}
use demesne.Credential.AuthFile.{
  Json, WriteAnswers, Files, rewritten, write_file_atomic, refresh_auth_file,
}
use demesne.Credential.Refreshing.{tokens_kept, Untouched, failure_keeps_file}

abbrev tokens : TokenSet
tokens = record {
  access_token = codes "a2";
  refresh_token = codes "r2";
  id_token = codes "i2";
  account_id = [];
  last_refresh = some (pos 5);
}

abbrev no_claims : Str → Option ℤ
no_claims s = none

tokens_kept_example :
    (err no_endpoint ≡ ok true)
    ⊎ (record tokens { last_refresh = none } ≡ record tokens { last_refresh = none })
unfolding ensure_fresh needs_refresh refresh
tokens_kept_example =
    tokens_kept (λ s. none) no_claims (pos 9) no_reply (record tokens { last_refresh = none })
      (record tokens { last_refresh = none }) (err no_endpoint) refl

abbrev parsed : Str → Option AuthJson
parsed s = some (record {
  auth_last_refresh = none;
  auth_tokens = some (record {
    auth_id = [];
    auth_access = codes "a";
    auth_refresh = codes "r";
    auth_account = none;
  });
})

abbrev json : Json
json = record {
  decode_object = λ s. some [];
  marshal_object = λ m. some (codes "{}");
  marshal_indent = λ m. some (codes "{ }");
  encode_text = λ s. s;
  encode_time = λ t. some (codes "now");
}

-- The file is written and not renamed.
abbrev answers : WriteAnswers
answers = record {
  temp = some (codes "/c/.auth-1.json.tmp");
  write_fails_after = none;
  chmod_succeeds = true;
  close_succeeds = true;
  rename_succeeds = false;
  remove_succeeds = true;
}

abbrev files : Files
files = (codes "/c/auth.json", codes "{}") ∷ []

absent : (tmp : Str) → answers.temp ≡ some tmp → lookup tmp files ≡ none
unfolding lookup str_eq
absent tmp same = subst (λ t. lookup t files ≡ none) (some-injective _ _ same) refl

abbrev answer : RefreshResponse
answer = record { new_id = none; new_access = some (codes "a2"); new_refresh = none }

not_renamed :
    refresh_auth_file
      (λ s. none)
      no_claims
      json
      parsed
      answers
      (codes "/c/auth.json")
      (pos 9)
      (replied 200 (some answer))
      files
    ≡ (err not_written, files)
unfolding refresh_auth_file ensure_fresh needs_refresh refresh trim_space rewritten
    write_file_atomic lookup insert delete str_eq
not_renamed = refl

failure_keeps_file_example : Untouched answers files files
unfolding lookup str_eq
failure_keeps_file_example =
    failure_keeps_file (λ s. none) no_claims json parsed answers (codes "/c/auth.json") files absent
      (pos 9) (replied 200 (some answer)) files not_written not_renamed
