-- ===== src/Tags.antt =====
-- web/src/features/nodes/NodeSettings.tsx: the editor of a node's tags, the choice of its network
-- interfaces, and what saving sends.
pub mod Laws
use Prim.Native.Char.{Char, code}
use Prim.Native.String
use card_scope.Base.{
  ℕ, suc, Bool, true, false, not, ◌&&◌, ◌||◌, List, [], ◌∷◌, ◌++◌, Option, none, some, String, ltb,
  leb, nat_eq, length, points, keep, dedupe, has, ◌==◌, if◌then◌else◌,
}

-- The white space and the line ends that `trim` takes away.
abbrev pub is_space : ℕ → Bool
is_space c =
    leb 9 c && leb c 13
    || nat_eq c 32
    || nat_eq c 0xa0
    || nat_eq c 0x1680
    || leb 0x2000 c && leb c 0x200a
    || leb 0x2028 c && leb c 0x2029
    || nat_eq c 0x202f
    || nat_eq c 0x205f
    || nat_eq c 0x3000
    || nat_eq c 0xfeff

unfoldable pub trim_start : String → String
trim_start String.[] = ""
trim_start (String.◌∷◌ c s) = if is_space (code c) then trim_start s else String.◌∷◌ c s

unfoldable pub trim_end : String → String
trim_end String.[] = ""
trim_end (String.◌∷◌ c s) =
    if trim_end s == "" && is_space (code c) then "" else String.◌∷◌ c (trim_end s)

unfoldable pub trim : String → String
unfolding trim_start trim_end
trim s = trim_end (trim_start s)

-- `/[\u0000-\u001f\u007f-\u009f]/.test(s)`.
abbrev pub is_control : ℕ → Bool
is_control c = leb c 0x1f || leb 0x7f c && leb c 0x9f

abbrev pub has_control : String → Bool
has_control String.[] = false
has_control (String.◌∷◌ c s) = is_control (code c) || has_control s

pub record Editor : Type 0 where
  pub tags : List String
  pub input : String
  pub error : String

abbrev pub max_points : ℕ
max_points = 32

abbrev pub max_tags : ℕ
max_tags = 20

abbrev pub is_refused : String → Bool
is_refused value = not (value == "") && (ltb max_points (points value) || has_control value)

abbrev pub extended : List String → String → List String
extended tags value = if value == "" then tags else dedupe (tags ++ value ∷ [])

-- `collectTags`: the editor afterwards, and the tags, or null if they are refused.
unfoldable pub collect_tags : Editor → Editor × Option (List String)
collect_tags e =
    let value = trim e.input in
    let next = extended e.tags value in
    if is_refused value
    then (record e { error = "标签最多 32 个字符，不能包含控制字符" }, none)
    else if ltb max_tags (length next)
    then (record e { error = "每个节点最多 20 个标签" }, none)
    else (record { tags = next; input = ""; error = "" }, some next)

-- The button that removes a tag, and typing in the field.
unfoldable pub remove_tag : String → Editor → Editor
remove_tag tag e = record e { tags = keep (λ t. not (t == tag)) e.tags }

unfoldable pub type_tag : String → Editor → Editor
type_tag text e = record e { input = text; error = "" }

-- The body of the request that saving sends, if it sends one.
pub record Patch : Type 0 where
  pub name : String
  pub expected : ℕ
  pub networks : List String
  pub tags : List String

abbrev pub patch_of : String → ℕ → List String → Option (List String) → Option Patch
patch_of name expected nets none = none
patch_of name expected nets (some tags) =
    some (record { name = name; expected = expected; networks = nets; tags = tags })

-- The form's `onSubmit`, up to the request.
unfoldable pub submit : String → ℕ → List String → Editor → Editor × Option Patch
submit name expected nets e =
    let (e', tags) = collect_tags e in (e', patch_of name expected nets tags)

-- A click on the box of an interface.
unfoldable pub choose_net : Bool → String → List String → List String
choose_net checked name nets =
    if checked then nets ++ name ∷ [] else keep (λ x. not (x == name)) nets
