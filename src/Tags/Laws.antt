-- ===== src/Tags/Laws.antt =====
-- The tags of web/src/features/nodes/NodeSettings.tsx stay within their limits.
use mathlib.Core.Path.{subst}
use card_scope.Base.{
  ap, ◌∙◌, some_inj, points, ℕ, ◌≤◌, ◌<◌, ◌≡◌, refl, ◌≢◌, ◌⊎◌, ◌↔◌, Bool, true, false, not, ◌&&◌,
  ◌||◌, List, [], ◌∷◌, ◌++◌, Option, none, some, String, ltb, All, if_both, length, keep, All-kept,
  length-keep, count-le-length, dedupe, dedupe_from, has, arith, eq_iff, ◌==◌,
}
use card_scope.Base.Sets.{
  IsDistinct, has-dedupe, IsDistinct-dedupe, has-removed, has-append, has-kept, keep-IsDistinct,
}
use card_scope.Tags.{
  trim, has_control, Editor, max_points, max_tags, is_refused, extended, collect_tags, remove_tag,
  Patch, patch_of, submit, choose_net,
}

-- A tag that may be stored.
pub record IsTag (t : String) : Type 0 where
  pub some_text : t ≢ ""
  pub short : points t ≤ max_points
  pub printable : has_control t ≡ false

-- The tags of a node: each may be stored, none stands twice, and there are at most 20.
pub record AreTags (tags : List String) : Type 0 where
  pub each : All IsTag tags
  pub distinct : IsDistinct tags
  pub few : length tags ≤ max_tags

All-dedupe_from {κ} :
    (P : String → Type κ) (seen xs : List String) → All P xs → All P (dedupe_from seen xs)
unfolding dedupe_from
All-dedupe_from P seen [] h = tt
All-dedupe_from P seen (x ∷ xs) h =
    ground (arith, All-dedupe_from P seen xs h.1, All-dedupe_from P (x ∷ seen) xs h.1)

All-snoc {κ} :
    (P : String → Type κ) (xs : List String) (x : String) → All P xs → P x → All P (xs ++ x ∷ [])
All-snoc P [] x h p = (p, tt)
All-snoc P (y ∷ ys) x h p = (h.0, All-snoc P ys x h.1 p)

refused-IsTag : (v : String) → v ≢ "" → is_refused v ≡ false → IsTag v
refused-IsTag v ne h = record {
  some_text = ne;
  short = ground (arith, eq_iff v "");
  printable = ground (arith, eq_iff v "");
}

extended-IsDistinct :
    (tags : List String) (v : String) → IsDistinct tags → IsDistinct (extended tags v)
extended-IsDistinct tags v h = ground (arith, IsDistinct-dedupe (tags ++ v ∷ []))

extended-All :
    (tags : List String) (v : String)
    → All IsTag tags
    → is_refused v ≡ false
    → All IsTag (extended tags v)
unfolding dedupe
extended-All tags v h r =
    if_both (All IsTag) (v == "") _ _ (λ e. h)
      (λ e.
        All-dedupe_from IsTag [] _
          (All-snoc IsTag tags v h (refused-IsTag v (λ empty. ground (arith, eq_iff v "")) r)))

-- What a collection guarantees of its outcome.
abbrev Collected : Editor × Option (List String) → Type 0
Collected r =
    AreTags r.0.tags
    × ((next : List String) → r.1 ≡ some next → (r.0.tags ≡ next) × (r.0.input ≡ ""))

-- Collecting keeps the tags of the editor within their limits, on every branch, and the tags that
-- it hands on are those that the editor then holds, with an empty field.
pub collect_tags-AreTags :
    (e : Editor)
    → AreTags e.tags
    → AreTags (collect_tags e).0.tags
      × ((next : List String)
          → (collect_tags e).1 ≡ some next
          → ((collect_tags e).0.tags ≡ next) × ((collect_tags e).0.input ≡ ""))
unfolding collect_tags
collect_tags-AreTags e h =
    let value = trim e.input in
    let next = extended e.tags value in
    if_both Collected (is_refused value) _ _ (λ refused. (h, λ n q. cc))
      (λ fine.
        if_both Collected (ltb max_tags (length next)) _ _ (λ many. (h, λ n q. cc))
          (λ few. (
            record {
              each = extended-All e.tags value h.each fine;
              distinct = extended-IsDistinct e.tags value h.distinct;
              few = ground arith;
            },
            λ n q. (cc, refl),
          )))

-- A collection is refused exactly when the text in the field is no tag, being too long or holding
-- a control character, or when there would be more than 20 tags; the tags then stay as they are.
pub collect_tags-refused :
    (e : Editor)
    → (((collect_tags e).1 ≡ none) ↔ (
        (is_refused (trim e.input) ≡ true) ⊎ (max_tags < length (extended e.tags (trim e.input)))))
      × ((collect_tags e).1 ≡ none → (collect_tags e).0.tags ≡ e.tags)
unfolding collect_tags
collect_tags-refused e = ((λ h. ground arith, λ h. ground arith), λ h. ground arith)

length-keep-le : (test : String → Bool) (xs : List String) → length (keep test xs) ≤ length xs
length-keep-le test xs = omega (arith, length-keep test xs, count-le-length test xs)

-- Removing a tag keeps them within their limits too, and the removed tag is gone.
pub remove_tag-AreTags :
    (tag : String) (e : Editor)
    → AreTags e.tags
    → AreTags (remove_tag tag e).tags × (has (remove_tag tag e).tags tag ≡ false)
unfolding remove_tag
remove_tag-AreTags tag e h = (
  record {
    each = All-kept IsTag _ e.tags h.each;
    distinct = keep-IsDistinct _ e.tags h.distinct;
    few = omega (arith, length-keep-le (λ t. not (t == tag)) e.tags, h.few);
  },
  has-removed tag e.tags,
)

has-extended :
    (tags : List String) (v t : String)
    → has (extended tags v) t ≡ (has tags t || not (v == "") && v == t)
has-extended tags v t = ground (arith, has-dedupe (tags ++ v ∷ []) t, has-append tags (v ∷ []) t)

collected-extended :
    (e : Editor) (next : List String)
    → (collect_tags e).1 ≡ some next
    → next ≡ extended e.tags (trim e.input)
unfolding collect_tags
collected-extended e next h = ground arith

patch_of-tags :
    (name : String) (expected : ℕ) (nets : List String) (tags : Option (List String)) {p : Patch}
    → patch_of name expected nets tags ≡ some p
    → tags ≡ some p.tags
patch_of-tags name expected nets none h = cc
patch_of-tags name expected nets (some tags) h = ap some (ap (λ (p : Patch). p.tags) (some_inj h))

-- If the tags of the editor are within their limits, so are those that saving sends: they are the
-- editor's and, if the field holds a text, that text without the white space around it.
pub submit_lem :
    (name : String) (expected : ℕ) (nets : List String) (e : Editor) {p : Patch}
    → AreTags e.tags
    → (submit name expected nets e).1 ≡ some p
    → AreTags p.tags
      × ((t : String)
          → has p.tags t ≡ (has e.tags t || not (trim e.input == "") && trim e.input == t))
unfolding submit
submit_lem name expected nets e {p} h q =
    let sent = patch_of-tags name expected nets (collect_tags e).1 q in
    let (valid, same) = collect_tags-AreTags e h in
    (
      subst AreTags (same p.tags sent).0 valid,
      λ t.
          ap (λ ts. has ts t) (collected-extended e p.tags sent)
          ∙ has-extended e.tags (trim e.input) t,
    )

-- The box of an interface shows what was chosen last, and leaves the other interfaces alone.
pub choose_net_lem :
    (checked : Bool) (name other : String) (nets : List String)
    → (has (choose_net checked name nets) name ≡ checked)
      × (other ≢ name → has (choose_net checked name nets) other ≡ has nets other)
unfolding choose_net
choose_net_lem true name other nets = (
  ground (arith, has-append nets (name ∷ []) name, eq_iff name name),
  λ ne. ground (arith, has-append nets (name ∷ []) other, eq_iff name other),
)
choose_net_lem false name other nets = (has-removed name nets, has-kept name other nets)
