-- ===== src/Domain/Source.antt =====
-- `SourceKey` of src-tauri/src/domain/source.rs, less the variant that only its tests compile.
use burnly.Prelude.{◌≡◌, ◌↔◌, refl, ap, true, Bool, Option, none, some, if◌then◌else◌, arith}
use burnly.Prelude.Text.{Text, text, text_eq, text_eq_iff}

pub data SourceKey : Type 0 where
  claude_code codex open_code pi cline z_code antigravity grok_build command_code deep_seek_harness
        zed :
      SourceKey

pub SourceKey-discrete : Discrete SourceKey
SourceKey-discrete = hlevel

abbrev pub as_str : SourceKey → Text
as_str claude_code = text "claude-code"
as_str codex = text "codex"
as_str open_code = text "opencode"
as_str pi = text "pi"
as_str cline = text "cline"
as_str z_code = text "zcode"
as_str antigravity = text "antigravity"
as_str grok_build = text "grok-build"
as_str command_code = text "command-code"
as_str deep_seek_harness = text "deepseek-harness"
as_str zed = text "zed"

-- The derived `==` of the enum.
unfoldable pub same_source : SourceKey → SourceKey → Bool
same_source a b = text_eq (as_str a) (as_str b)

pub from_storage : Text → Option SourceKey
from_storage value =
    if text_eq value (text "claude-code")
    then some claude_code
    else if text_eq value (text "codex")
    then some codex
    else if text_eq value (text "opencode")
    then some open_code
    else if text_eq value (text "pi")
    then some pi
    else if text_eq value (text "cline")
    then some cline
    else if text_eq value (text "zcode")
    then some z_code
    else if text_eq value (text "antigravity")
    then some antigravity
    else if text_eq value (text "grok-build")
    then some grok_build
    else if text_eq value (text "command-code")
    then some command_code
    else if text_eq value (text "deepseek-harness")
    then some deep_seek_harness
    else if text_eq value (text "zed")
    then some zed
    else none

-- What `as_str` writes, `from_storage` reads back.
pub from_storage-as_str : (source : SourceKey) → from_storage (as_str source) ≡ some source
unfolding from_storage
from_storage-as_str claude_code = refl
from_storage-as_str _ = refl

-- One test of the chain in `from_storage`.
read_key :
    (value name : Text) (key source : SourceKey) (rest : Option SourceKey)
    → name ≡ as_str key
    → (rest ≡ some source → as_str source ≡ value)
    → (if text_eq value name then some key else rest) ≡ some source
    → as_str source ≡ value
read_key value name key source rest named later h = ground (arith, text_eq_iff value name, later)

-- Whatever `from_storage` reads is the text of the source that it returns.
pub as_str-from_storage :
    (value : Text) {source : SourceKey} → from_storage value ≡ some source → as_str source ≡ value
unfolding from_storage
as_str-from_storage value {source} h =
    read_key value _ claude_code source _ refl
      (read_key value _ codex source _ refl (
        read_key value _ open_code source _ refl (
          read_key value _ pi source _ refl (
            read_key value _ cline source _ refl (
              read_key value _ z_code source _ refl (
                read_key value _ antigravity source _ refl (
                  read_key value _ grok_build source _ refl (
                    read_key value _ command_code source _ refl (
                      read_key value _ deep_seek_harness source _ refl
                        (read_key value _ zed source _ refl (λ e. cc)))))))))))
      h

pub same_source_iff : (a b : SourceKey) → (same_source a b ≡ true) ↔ (a ≡ b)
unfolding same_source
same_source_iff a b = (
  λ h. cc (
    from_storage-as_str a,
    from_storage-as_str b,
    ap from_storage ((text_eq_iff (as_str a) (as_str b)).0 h),
  ),
  λ h. (text_eq_iff (as_str a) (as_str b)).1 (ap as_str h),
)
