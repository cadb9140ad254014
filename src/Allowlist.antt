-- ===== src/Allowlist.antt =====
-- internal/mcpproxy/allowlist.go and internal/mcpproxy/defaults.go: which tools of which MCP server a
-- sandboxed agent may call.
pub mod Resolution
mod Tests
use demesne.Base.{
  ℕ, Bool, true, false, not, ◌||◌, Option, none, some, is_some, List, [], ◌∷◌, map, if◌then◌else◌,
  Str, codes, str_eq, is_empty, has_prefix, Map, lookup, insert, delete, str_Eq, Result, err, ok,
  ◌>>=◌, require,
}

abbrev pub default_allowlist : Map Str (List Str)
default_allowlist =
    (
      codes "alignment",
      codes "get_article"
          ∷ codes "get_recommendations"
          ∷ codes "get_similar_articles"
          ∷ codes "list_disliked"
          ∷ codes "list_liked"
          ∷ codes "list_unreviewed"
          ∷ codes "search_articles"
          ∷ codes "semantic_search"
          ∷ [],
    )
    ∷ (
      codes "amazon",
      codes "get_product_details" ∷ codes "list_regions" ∷ codes "search_products" ∷ [],
    )
    ∷ (
      codes "anki",
      codes "collection_stats"
          ∷ codes "findNotes"
          ∷ codes "getTags"
          ∷ codes "get_cards"
          ∷ codes "get_due_cards"
          ∷ codes "modelFieldNames"
          ∷ codes "modelNames"
          ∷ codes "modelStyling"
          ∷ codes "notesInfo"
          ∷ codes "review_stats"
          ∷ [],
    )
    ∷ (
      codes "assets",
      codes "list_asset_sources"
          ∷ codes "search_icons"
          ∷ codes "get_icon"
          ∷ codes "search_illustrations"
          ∷ codes "get_illustration"
          ∷ codes "search_fonts"
          ∷ codes "get_font"
          ∷ codes "search_photos"
          ∷ codes "get_photo"
          ∷ codes "search_textures"
          ∷ codes "get_texture"
          ∷ codes "search_models"
          ∷ codes "get_model"
          ∷ codes "search_audio"
          ∷ codes "get_audio"
          ∷ codes "search_sprites"
          ∷ codes "get_sprite"
          ∷ codes "get_pack"
          ∷ [],
    )
    ∷ (
      codes "bunpro",
      codes "get_decks"
          ∷ codes "get_grammar_point"
          ∷ codes "get_grammar_srs_details"
          ∷ codes "get_jlpt_progress"
          ∷ codes "get_review_activity"
          ∷ codes "get_review_forecast"
          ∷ codes "get_srs_overview"
          ∷ codes "get_stats"
          ∷ codes "get_study_queue"
          ∷ codes "get_user"
          ∷ codes "get_vocab"
          ∷ codes "get_vocab_srs_details"
          ∷ [],
    )
    ∷ (
      codes "image-gen-mcp",
      codes "edit_image" ∷ codes "generate_image" ∷ codes "list_available_models" ∷ [],
    )
    ∷ (
      codes "manifold",
      codes "get_baseline"
          ∷ codes "get_comments"
          ∷ codes "get_market"
          ∷ codes "get_me"
          ∷ codes "get_portfolio_pnl"
          ∷ codes "get_positions"
          ∷ codes "get_user"
          ∷ codes "list_bets"
          ∷ codes "search_markets"
          ∷ [],
    )
    ∷ (codes "mermaid", codes "generate" ∷ [])
    ∷ (
      codes "supermarkets-uk",
      codes "browse_categories"
          ∷ codes "compare_prices"
          ∷ codes "get_basket"
          ∷ codes "get_order_history"
          ∷ codes "get_product_details"
          ∷ codes "list_supermarkets"
          ∷ codes "search_products"
          ∷ [],
    )
    ∷ (
      codes "wanikani",
      codes "get_assignments"
          ∷ codes "get_level_progressions"
          ∷ codes "get_review_statistics"
          ∷ codes "get_subjects"
          ∷ codes "get_summary"
          ∷ codes "get_user"
          ∷ [],
    )
    ∷ (
      codes "workflowy",
      codes "get_node" ∷ codes "list_children" ∷ codes "list_targets" ∷ codes "search_nodes" ∷ [],
    )
    ∷ []

pub record ServerAllowlist : Type 0 where
  pub allow_all : Bool
  pub tools : List Str

abbrev pub has_tool : Str → List Str → Bool
has_tool tool [] = false
has_tool tool (t ∷ ts) = str_eq t tool || has_tool tool ts

pub allowed : ServerAllowlist → Str → Bool
allowed a tool = a.allow_all || has_tool tool a.tools

pub data AllowlistError : Type 0 where
  unreadable_override : AllowlistError
  malformed_override : AllowlistError
  no_default : Str → AllowlistError
  unknown_text : Str → AllowlistError
  malformed_entry : Str → AllowlistError
  empty_tool_name : Str → AllowlistError

abbrev pub only : List Str → ServerAllowlist
only tools = record { allow_all = false; tools = tools }

-- The defaults with which ResolveAllowlist starts.
abbrev pub base_allowlist : Map Str (List Str) → Map Str ServerAllowlist
base_allowlist [] = []
base_allowlist ((name, tools) ∷ m) = (name, only tools) ∷ base_allowlist m

abbrev pub parse_text : Str → Str → Result AllowlistError (Option ServerAllowlist)
parse_text name text =
    if str_eq text (codes "*")
    then ok (some (record { allow_all = true; tools = [] }))
    else if str_eq text (codes "default")
    then (require (lookup name default_allowlist) (no_default name)
        >>= (λ tools. ok (some (only tools))))
    else err (unknown_text name)

abbrev pub parse_list : Str → List Str → Result AllowlistError (Option ServerAllowlist)
parse_list name [] = ok none
parse_list name (t ∷ ts) =
    if has_tool [] (t ∷ ts) then err (empty_tool_name name) else ok (some (only (t ∷ ts)))

-- The first two parameters are json.Unmarshal of one entry into a string and into a list of strings,
-- the last is that of the file, all `none` for an error.
module _ (unmarshal_text : Str → Option Str) (unmarshal_list : Str → Option (List Str))
    (unmarshal_file : Str → Option (Map Str Str)) where
  pub parse_override_entry : Str → Str → Result AllowlistError (Option ServerAllowlist)
  parse_override_entry name raw = elim (unmarshal_text raw) [
    | none ↦ elim (unmarshal_list raw) [
      | none ↦ err (malformed_entry name)
      | some list ↦ parse_list name list
    ]
    | some text ↦ parse_text name text
  ]

  abbrev pub set_entry :
      Str → Option ServerAllowlist → Map Str ServerAllowlist → Map Str ServerAllowlist
  set_entry name none base = delete name base
  set_entry name (some a) base = insert name a base

  -- The loop over the file's entries, in some order of iteration.
  pub apply_entries :
      Map Str Str → Map Str ServerAllowlist → Result AllowlistError (Map Str ServerAllowlist)
  apply_entries [] base = ok base
  apply_entries ((name, raw) ∷ f) base =
      if has_prefix name (codes "_")
      then apply_entries f base
      else elim (parse_override_entry name raw) [
        | err e ↦ err e
        | ok entry ↦ apply_entries f (set_entry name entry base)
      ]

  pub apply_override :
      Map Str ServerAllowlist → Str → Result AllowlistError (Map Str ServerAllowlist)
  apply_override base bytes =
      require (unmarshal_file bytes) malformed_override >>= (λ f. apply_entries f base)

  -- What reading the override file gives.
  pub data OverrideFile : Type 0 where
    no_file : OverrideFile
    unreadable_file : OverrideFile
    file_bytes : Str → OverrideFile

  pub resolve_allowlist : Str → OverrideFile → Result AllowlistError (Map Str ServerAllowlist)
  resolve_allowlist [] file = ok (base_allowlist default_allowlist)
  resolve_allowlist (c ∷ path) no_file = ok (base_allowlist default_allowlist)
  resolve_allowlist (c ∷ path) unreadable_file = err unreadable_override
  resolve_allowlist (c ∷ path) (file_bytes bytes) =
      apply_override (base_allowlist default_allowlist) bytes
