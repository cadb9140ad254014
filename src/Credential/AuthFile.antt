-- ===== src/Credential/AuthFile.antt =====
-- internal/proxies/openai/authfile.go: the refresh of auth.json, and how it is written in place.
use demesne.Base.{
  ℕ, ℤ, Bool, true, false, ◌&&◌, ◌||◌, Option, none, some, [], if◌then◌else◌, take, Str, codes,
  is_empty, trim_space, str_eq, str_Eq, Map, lookup, insert, delete, Result, err, ok,
}
use demesne.Credential.{
  TokenSet, AuthJson, token_set_of, Reply, CredentialError, not_readable, empty_file, invalid_file,
  no_tokens, not_rewritten, not_written, ensure_fresh,
}

-- encoding/json, with a JSON object as the map of its fields to their texts, as json.RawMessage has
-- them: json.Unmarshal of an object, json.Marshal and json.MarshalIndent of one, `none` for an error,
-- and json.Marshal of a text and of a time.
pub record Json : Type 0 where
  pub decode_object : Str → Option (Map Str Str)
  pub marshal_object : Map Str Str → Option Str
  pub marshal_indent : Map Str Str → Option Str
  pub encode_text : Str → Str
  pub encode_time : ℤ → Option Str

abbrev pub apply_token_fields : Json → TokenSet → Map Str Str → Map Str Str
apply_token_fields j t fields = insert (codes "refresh_token") (j.encode_text t.refresh_token) (
    insert (codes "access_token") (j.encode_text t.access_token)
      (insert (codes "id_token") (j.encode_text t.id_token) fields))

-- The `tokens` of the file: an absent or null one is an empty object.
abbrev pub token_fields : Json → Option Str → Option (Map Str Str)
token_fields j none = some []
token_fields j (some raw) = if str_eq raw (codes "null") then some [] else j.decode_object raw

abbrev pub encode_last : Json → Option ℤ → Option Str
encode_last j none = some (codes "\"0001-01-01T00:00:00Z\"")
encode_last j (some t) = j.encode_time t

abbrev pub marshalled : Json → TokenSet → Map Str Str → Map Str Str → Option Str
marshalled j t top fields = elim (j.marshal_object (apply_token_fields j t fields)) [
  | none ↦ none
  | some tokens ↦ elim (encode_last j t.last_refresh) [
    | none ↦ none
    | some last ↦
        j.marshal_indent (insert (codes "last_refresh") last (insert (codes "tokens") tokens top))
  ]
]

-- The text that is written in place of the original.
unfoldable pub rewritten : Json → Str → TokenSet → Option Str
rewritten j original t = elim (j.decode_object original) [
  | none ↦ none
  | some top ↦ elim (token_fields j (lookup (codes "tokens") top)) [
    | none ↦ none
    | some fields ↦ marshalled j t top fields
  ]
]

-- What the host answers while a file is written: the name of the new file that os.CreateTemp makes,
-- how many bytes are written where Write fails, and whether Chmod, Close, Rename and Remove succeed.
pub record WriteAnswers : Type 0 where
  pub temp : Option Str
  pub write_fails_after : Option ℕ
  pub chmod_succeeds : Bool
  pub close_succeeds : Bool
  pub rename_succeeds : Bool
  pub remove_succeeds : Bool

-- Files by their paths, each with its text.
abbrev pub Files : Type 0
Files = Map Str Str

module _ (a : WriteAnswers) where
  abbrev pub written : Str → Str → Files → Option ℕ → Files × Bool
  written tmp text files (some n) = (insert tmp (take n text) files, false)
  written tmp text files none = (insert tmp text files, a.chmod_succeeds && a.close_succeeds)

  -- The files, and whether there was no error.
  abbrev pub write_and_close : Str → Str → Files → Files × Bool
  write_and_close tmp text files = written tmp text files a.write_fails_after

  abbrev pub removed : Str → Files → Files
  removed tmp files = if a.remove_succeeds then delete tmp files else files

  abbrev pub renamed : Str → Str → Str → Files × Bool → Files × Bool
  renamed path text tmp (files, false) = (removed tmp files, false)
  renamed path text tmp (files, true) =
      if a.rename_succeeds
      then (insert path text (delete tmp files), true)
      else (removed tmp files, false)

  abbrev pub write_into : Str → Str → Files → Option Str → Files × Bool
  write_into path text files none = (files, false)
  write_into path text files (some tmp) =
      renamed path text tmp (write_and_close tmp text (insert tmp [] files))

  unfoldable pub write_file_atomic : Str → Str → Files → Files × Bool
  write_file_atomic path text files = write_into path text files a.temp

module _ (base64 : Str → Option Str) (exp_of : Str → Option ℤ) (j : Json)
    (unmarshal : Str → Option AuthJson) (a : WriteAnswers) (path : Str) where
  abbrev pub answer_written : TokenSet → Files × Bool → Result CredentialError TokenSet × Files
  answer_written t (files, true) = (ok t, files)
  answer_written t (files, false) = (err not_written, files)

  abbrev pub write_auth_file : Str → TokenSet → Files → Result CredentialError TokenSet × Files
  write_auth_file original t files = elim (rewritten j original t) [
    | none ↦ (err not_rewritten, files)
    | some text ↦ answer_written t (write_file_atomic a path text files)
  ]

  abbrev pub persist_fresh :
      Str → Files → TokenSet × Result CredentialError Bool → Result CredentialError TokenSet × Files
  persist_fresh original files (t, err e) = (err e, files)
  persist_fresh original files (t, ok false) = (ok t, files)
  persist_fresh original files (t, ok true) = write_auth_file original t files

  abbrev pub refresh_parsed :
      ℤ → Reply → Str → Files → Option AuthJson → Result CredentialError TokenSet × Files
  refresh_parsed now reply original files none = (err invalid_file, files)
  refresh_parsed now reply original files (some auth) =
      let t = token_set_of auth in
      if is_empty t.access_token || is_empty t.refresh_token
      then (err no_tokens, files)
      else persist_fresh original files (ensure_fresh base64 exp_of now reply t)

  abbrev pub refresh_read : ℤ → Reply → Files → Option Str → Result CredentialError TokenSet × Files
  refresh_read now reply files none = (err not_readable, files)
  refresh_read now reply files (some original) =
      if is_empty (trim_space original)
      then (err empty_file, files)
      else refresh_parsed now reply original files (unmarshal original)

  unfoldable pub refresh_auth_file : ℤ → Reply → Files → Result CredentialError TokenSet × Files
  refresh_auth_file now reply files = refresh_read now reply files (lookup path files)
