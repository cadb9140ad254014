-- ===== src/Credential.antt =====
-- internal/proxies/openai/credential.go and authfile.go: the Codex token set, refreshed on the host and
-- written back to auth.json.
pub mod AuthFile
pub mod Refreshing
mod Tests
use demesne.Base.{
  ℕ, ◌*◌, Bool, true, false, not, ◌&&◌, ◌||◌, Option, none, some, List, [], ◌∷◌, map, if◌then◌else◌,
  ltb, ℤ, pos, ◌-ℤ◌, ◌*ℤ◌, ltb_ℤ, ◌==◌, pos_part, neg_part, Str, codes, str_eq, Map, lookup, insert,
  str_Eq, is_empty, trim_space, split_on, require, Result, err, ok, ◌>>=◌,
}

-- A time is in nanoseconds. `last_refresh` is `none` for the zero time.
pub record TokenSet : Type 0 where
  pub access_token : Str
  pub refresh_token : Str
  pub id_token : Str
  pub account_id : Str
  pub last_refresh : Option ℤ

pub record AuthTokens : Type 0 where
  pub auth_id : Str
  pub auth_access : Str
  pub auth_refresh : Str
  pub auth_account : Option Str

pub record AuthJson : Type 0 where
  pub auth_last_refresh : Option ℤ
  pub auth_tokens : Option AuthTokens

abbrev pub or_blank : Option Str → Str
or_blank none = []
or_blank (some s) = s

abbrev pub token_set_of : AuthJson → TokenSet
token_set_of a = elim a.auth_tokens [
  | none ↦ record {
    access_token = [];
    refresh_token = [];
    id_token = [];
    account_id = [];
    last_refresh = a.auth_last_refresh;
  }
  | some t ↦ record {
    access_token = t.auth_access;
    refresh_token = t.auth_refresh;
    id_token = t.auth_id;
    account_id = or_blank t.auth_account;
    last_refresh = a.auth_last_refresh;
  }
]

-- Eight days, and a minute.
abbrev pub refresh_age : ℤ
refresh_age = pos 691200000000000

abbrev pub expiry_margin : ℤ
expiry_margin = pos 60000000000

-- `base64` is RawURLEncoding.DecodeString, `exp_of` the claim that json.Unmarshal finds, 0 where it is
-- absent.
module _ (base64 : Str → Option Str) (exp_of : Str → Option ℤ) where
  abbrev pub is_zero : ℤ → Bool
  is_zero n = pos_part n == neg_part n

  abbrev pub expiry_in : Option Str → Option ℤ
  expiry_in none = none
  expiry_in (some payload) = elim (exp_of payload) [
    | none ↦ none
    | some exp ↦ if is_zero exp then none else some (exp *ℤ pos 1000000000)
  ]

  abbrev pub second_part : List Str → Option ℤ
  second_part [] = none
  second_part (a ∷ []) = none
  second_part (a ∷ b ∷ rest) = expiry_in (base64 b)

  pub jwt_expiry : Str → Option ℤ
  jwt_expiry id_token = second_part (split_on 46 [] id_token)

  abbrev pub expires_soon : ℤ → Option ℤ → Bool
  expires_soon now none = false
  expires_soon now (some exp) = ltb_ℤ (exp -ℤ now) expiry_margin

  pub needs_refresh : ℤ → TokenSet → Bool
  needs_refresh now t = elim t.last_refresh [
    | none ↦ true
    | some last ↦ ltb_ℤ refresh_age (now -ℤ last) || expires_soon now (jwt_expiry t.id_token)
  ]

pub record RefreshResponse : Type 0 where
  pub new_id : Option Str
  pub new_access : Option Str
  pub new_refresh : Option Str

-- What the token endpoint answers: no answer, or a status with a body, `none` where it does not decode.
pub data Reply : Type 0 where
  no_reply : Reply
  replied : ℕ → Option RefreshResponse → Reply

pub data CredentialError : Type 0 where
  not_readable : CredentialError
  empty_file : CredentialError
  invalid_file : CredentialError
  no_tokens : CredentialError
  no_endpoint : CredentialError
  bad_status : ℕ → CredentialError
  bad_body : CredentialError
  not_rewritten : CredentialError
  not_written : CredentialError

abbrev pub if_given : Option Str → Str → Str
if_given none old = old
if_given (some new) old = new

abbrev pub with_response : ℤ → RefreshResponse → TokenSet → TokenSet
with_response now r t = record t {
  id_token = if_given r.new_id t.id_token;
  access_token = if_given r.new_access t.access_token;
  refresh_token = if_given r.new_refresh t.refresh_token;
  last_refresh = some now;
}

pub refresh : ℤ → Reply → TokenSet → Result CredentialError TokenSet
refresh now no_reply t = err no_endpoint
refresh now (replied status body) t =
    if ltb status 200 || not (ltb status 300)
    then err (bad_status status)
    else (require body bad_body >>= (λ r. ok (with_response now r t)))

module _ (base64 : Str → Option Str) (exp_of : Str → Option ℤ) where
  -- The token set afterwards, and whether a refresh took place.
  pub ensure_fresh : ℤ → Reply → TokenSet → TokenSet × Result CredentialError Bool
  ensure_fresh now reply t =
      if needs_refresh base64 exp_of now t
      then elim (refresh now reply t) [ err e ↦ (t, err e) | ok fresh ↦ (fresh, ok true) ]
      else (t, ok false)
